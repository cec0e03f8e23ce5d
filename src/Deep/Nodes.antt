-- ===== src/Deep/Nodes.antt =====
-- The nodes of the deep-search graph: the functions that `build_deep_graph` defines
-- (backend/src/sovereign_rag/agents/graph.py). Each returns the state with its updates made.
mod Parsing
unfoldable pub use Parsing.{subquestions, claims_of, verdict_of, or_question}
use mathlib.Core.List.{foldl}
use sovereign_rag.Base.{
  ℕ, suc, ◌+◌, Option, none, some, List, [], ◌∷◌, ◌++◌, map, ◌==◌, Bool, not, if◌then◌else◌,
  is_empty, length, take, select,
}
use sovereign_rag.Text.{Text, codes, join, decimal, newline}
use sovereign_rag.Effects.{Run, pure, lift, catch_value, ◌>>=◌, ◌>>◌}
use sovereign_rag.Json.{Json, iterate, json_payload}
use sovereign_rag.Llm.{ask}
use sovereign_rag.Store.{SearchHit, Reranker}
use sovereign_rag.Deep.State.{
  DeepDeps, DeepState, Claim, ClaimVerdict, supported, unsupported, delivered, abstained,
}
use sovereign_rag.Deep.Route.{same_verdict}
use sovereign_rag.Deep.Prompts.{plan_prompt, write_prompt, verify_prompt}

-- ` - {section}` if there is one that is not empty
abbrev section_suffix : Option Text → Text
section_suffix none = []
section_suffix (some []) = []
section_suffix (some (c ∷ s)) = codes " - " ++ (c ∷ s)

block_list : {Score : Type 0} → ℕ → List (SearchHit Score) → List Text
block_list index [] = []
block_list index (hit ∷ hits) =
    (codes "["
      ++ (decimal index
          ++ (codes "] "
              ++ (hit.filename ++ (section_suffix hit.section ++ (codes ":\n" ++ hit.content))))))
    ∷ block_list (index + 1) hits

-- `_blocks`
unfoldable pub blocks : {Score : Type 0} → List (SearchHit Score) → Text
unfolding block_list
blocks evidence = join (newline ∷ newline ∷ []) (block_list 1 evidence)

module _ {Score : Type 0} where
  -- `pool[str(hit.chunk_id)] = hit`: the place of a key that is there is kept
  unfoldable pub put_hit : List (SearchHit Score) → SearchHit Score → List (SearchHit Score)
  put_hit [] hit = hit ∷ []
  put_hit (x ∷ pool) hit = if x.chunk_id == hit.chunk_id then hit ∷ pool else x ∷ put_hit pool hit

  -- `pool.setdefault(str(hit.chunk_id), hit)`
  unfoldable pub set_default : List (SearchHit Score) → SearchHit Score → List (SearchHit Score)
  set_default [] hit = hit ∷ []
  set_default (x ∷ pool) hit =
      if x.chunk_id == hit.chunk_id then x ∷ pool else x ∷ set_default pool hit

  -- the dict of the evidence at hand
  unfoldable pub pool_of : List (SearchHit Score) → List (SearchHit Score)
  unfolding put_hit
  pool_of evidence = foldl put_hit [] evidence

  unfoldable pub add_hits : List (SearchHit Score) → List (SearchHit Score) → List (SearchHit Score)
  unfolding set_default
  add_hits pool hits = foldl set_default pool hits

-- `[f for f in fixes if f] or [state["question"]]`
unfoldable pub fix_queries : Text → List Claim → List Text
fix_queries question claims = or_question question (
    select (λ f. not (is_empty f))
      (map (λ c. c.fix_query) (select (λ c. same_verdict unsupported c.verdict) claims)))

module _ {W Vector Score : Type 0} (deps : DeepDeps W Vector Score) where
  open deps use {llm, embedder, store, reranker, user_id, emit, json}

  -- a JSON array from the model: `_json_payload(await ask(...))`, iterated
  unfoldable pub ask_items : Text → Text → Run W (List Json)
  ask_items system_text user_text = do
    reply ← ask llm system_text user_text
    raw ← lift (json_payload json reply)
    lift (iterate raw)

  unfoldable pub plan : DeepState Score → Run W (DeepState Score)
  plan st = do
    subqs ←
        catch_value
          (do raw ← ask_items plan_prompt st.question; pure (subquestions json st.question raw))
          (pure (st.question ∷ []))
    emit (codes "planner") (decimal (length subqs) ++ codes " sub-questions")
    pure (record st { plan = subqs; pending_queries = subqs })

  unfoldable pub search_queries :
      List Text → List (SearchHit Score) → Run W (List (SearchHit Score))
  search_queries [] pool = pure pool
  search_queries (query ∷ queries) pool = do
    embedding ← embedder.embed_query query
    hits ← store.hybrid_search query embedding user_id 12
    search_queries queries (add_hits pool hits)

  -- the reranker scores a pool that is not empty; else the first ten are kept
  unfoldable pub narrow :
      Option (Reranker W Score) → Text → List (SearchHit Score) → Run W (List (SearchHit Score))
  narrow none question merged = pure (take 10 merged)
  narrow (some r) question [] = pure []
  narrow (some r) question (h ∷ merged) = r.rerank question (h ∷ merged) 10

  unfoldable pub search : DeepState Score → Run W (DeepState Score)
  search st = do
    merged ← search_queries st.pending_queries (pool_of st.evidence)
    kept ← narrow reranker st.question merged
    emit (codes "searcher") (
        decimal (length st.pending_queries)
        ++ (codes " queries, " ++ (decimal (length kept) ++ codes " passages")))
    pure (record st { evidence = kept; pending_queries = [] })

  unfoldable pub write : DeepState Score → Run W (DeepState Score)
  write st = do
    draft ←
        ask llm
          (if is_empty st.evidence
            then write_prompt
            else write_prompt ++ (codes "\n\nContext:\n\n" ++ blocks st.evidence))
          st.question
    emit (codes "writer") (decimal (length draft) ++ codes " chars")
    pure (record st { draft = draft })

  unfoldable pub verify : DeepState Score → Run W (DeepState Score)
  verify st = do
    claims ←
        catch_value
          (do
            raw ← ask_items verify_prompt (
                codes "Draft:\n" ++ (st.draft ++ (codes "\n\nPassages:\n\n" ++ blocks st.evidence)))
            pure (claims_of json raw))
          (pure [])
    emit (codes "verifier") (
        decimal (length claims)
        ++ (codes " claims, "
            ++ (decimal (length (select (λ c. not (same_verdict supported c.verdict)) claims))
                ++ codes " flagged")))
    pure (record st { claims = claims })

  -- the targeted queries of the unsupported claims, or the question itself
  unfoldable pub before_search_repair : DeepState Score → Run W (DeepState Score)
  before_search_repair st = pure (record st {
    pending_queries = fix_queries st.question st.claims;
    search_repairs = st.search_repairs + 1;
    claims = [];
  })

  unfoldable pub before_write_repair : DeepState Score → Run W (DeepState Score)
  before_write_repair st = pure (record st { write_repairs = st.write_repairs + 1; claims = [] })

  unfoldable pub before_replan : DeepState Score → Run W (DeepState Score)
  before_replan st = pure (record st { replans = st.replans + 1; claims = []; evidence = [] })

  unfoldable pub deliver : DeepState Score → Run W (DeepState Score)
  deliver st = pure (record st { outcome = delivered })

  unfoldable pub abstain : DeepState Score → Run W (DeepState Score)
  abstain st = do
    emit (codes "verifier") (codes "corpus cannot answer, abstaining")
    pure (record st { outcome = abstained; evidence = []; draft = [] })
