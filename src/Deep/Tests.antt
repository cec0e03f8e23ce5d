-- ===== src/Deep/Tests.antt =====
-- The deep-search graph at a scripted model: its replies are a list, and its searches find two
-- passages. The script of `longest` uses up every repair.
use sovereign_rag.Base.{
  ℕ, ◌≤◌, ◌≡◌, ◌↔◌, ◌⊎◌, refl, subst, Option, none, some, true, List, [], ◌∷◌, arith, if◌then◌else◌,
  Every, Bool-cases, inl, inr,
}
use sovereign_rag.Text.{Text, codes, same_text, strip, is_space}
use sovereign_rag.Effects.{
  Outcome, ok, pure, ◌>>=◌, catch_value, Ends, Never, Anything, Allowed, Ends-pure,
}
use sovereign_rag.Json.{
  Json, string, array, object, nil, cons, end, field, iterate, json_payload, get, str_of,
}
use sovereign_rag.Llm.{ChunkStream, finished, chunk, ask}
use sovereign_rag.Store.{SearchHit}
use sovereign_rag.Deep.State.{
  DeepDeps, DeepState, initial_state, DeepOutcome, delivered, abstained, unsupported, misattributed,
  unanswerable,
}
use sovereign_rag.Deep.Route.{route, verdicts_of, has, is_only, to_deliver, to_abstain}
use sovereign_rag.Deep.Decisions.{route-honest}
use sovereign_rag.Deep.Nodes
use sovereign_rag.Deep.Nodes.{ask_items, search_queries, narrow}
use sovereign_rag.Deep.Graph.{invoke, run_node, next_node}
use sovereign_rag.Deep.Contract.{DepsEnd}
use sovereign_rag.Deep.Run.{IsFinal, invoke-IsFinal}

abbrev Script : Type 0
Script = List Text

one_chunk : Text → ChunkStream
one_chunk t = chunk (record { delta = t; prompt_tokens = none; completion_tokens = none }) finished

-- the next reply; an empty one when the script is over
reply : Script → ChunkStream × Script
unfolding one_chunk
reply [] = (one_chunk [], [])
reply (t ∷ rest) = (one_chunk t, rest)

claim_item : Text → Json
claim_item v = array (cons (object (field (codes "verdict") (string v) end)) nil)

-- `[u]`, `[m]`, `[n]` stand for one claim of that verdict, `[q]` for a plan
table : List (Text × Json)
unfolding claim_item
table =
    (codes "[u]", claim_item (codes "unsupported"))
    ∷ (codes "[m]", claim_item (codes "misattributed"))
    ∷ (codes "[n]", claim_item (codes "unanswerable"))
    ∷ (codes "[q]", array (cons (string (codes "which?")) nil))
    ∷ []

find : Text → List (Text × Json) → Option Json
find s [] = none
find s ((t, v) ∷ rest) = if same_text s t then some v else find s rest

passage : ℕ → SearchHit ℕ
passage n = record {
  chunk_id = n;
  document_id = 7;
  filename = codes "act.md";
  section = none;
  page = none;
  content = codes "text";
  score = n;
  vec_rank = some n;
  fts_rank = none;
}

scripted : DeepDeps Script ℕ ℕ
unfolding reply find table passage
scripted = record {
  llm = record { stream_chat = λ messages w. reply w };
  embedder = record { embed_query = λ q. pure 0 };
  store = record { hybrid_search = λ q v user k. pure (passage 1 ∷ passage 2 ∷ []) };
  reranker = none;
  user_id = codes "alice";
  emit = λ agent detail. pure tt;
  json = record { loads = λ s. find s table; repr = λ v. [] };
}

ask-Ends : (s u : Text) → Ends Anything Never (ask scripted.llm s u)
unfolding ask scripted
ask-Ends s u = record { at = answers }
  where
    answers : (w : Script) → Allowed Anything Never (ask scripted.llm s u w).0
    answers [] = tt
    answers (t ∷ rest) = tt

abbrev IsArray : Json → Type 0
IsArray (array xs) = Unit
IsArray _ = ⊥

iterates : (v : Json) → IsArray v → Allowed Anything Never (iterate v)
unfolding iterate
iterates (array xs) h = tt
iterates _ h = absurd h

find-IsArray :
    (s : Text) (entries : List (Text × Json))
    → Every (λ entry. IsArray entry.1) entries
    → (v : Json) → find s entries ≡ some v
    → IsArray v
unfolding find
find-IsArray s [] h v e = absurd (cc e)
find-IsArray s ((t, x) ∷ rest) h v e = elim (Bool-cases (same_text s t)) [
  | inl hit ↦ let same : x ≡ v = ground arith in subst IsArray same h.0
  | inr miss ↦ find-IsArray s rest h.1 v (ground arith)
]

scripted-DepsEnd : DepsEnd Never scripted
unfolding scripted
scripted-DepsEnd = record {
  asks = ask-Ends;
  embeds = λ q. Ends-pure _ tt;
  searches = λ q v u k. Ends-pure _ tt;
  reranks = λ r e. absurd (cc e);
  emits = λ a d. Ends-pure _ tt;
  loads = λ r s v e k. iterates v (find-IsArray s table (unfold table in omega arith) v k);
}

invoke-IsFinal_example :
    Ends (IsFinal (codes "duties?")) Never (invoke scripted 24 (codes "duties?"))
invoke-IsFinal_example = invoke-IsFinal scripted scripted-DepsEnd (codes "duties?") 24 (omega arith)

abbrev longest : Script
longest =
    codes "[q]"
    ∷ codes "d"
    ∷ codes "[u]"
    ∷ codes "d"
    ∷ codes "[u]"
    ∷ codes "d"
    ∷ codes "[u]"
    ∷ codes "[q]"
    ∷ codes "d"
    ∷ codes "[m]"
    ∷ codes "d"
    ∷ codes "[m]"
    ∷ codes "d"
    ∷ codes "[m]"
    ∷ []

run_script : ℕ → Script → Outcome (Option (DeepState ℕ))
unfolding invoke run_node next_node route verdicts_of scripted ◌>>=◌ catch_value ask ask_items
    json_payload iterate get search_queries narrow Nodes.plan Nodes.search Nodes.write Nodes.verify
    Nodes.before_search_repair Nodes.before_write_repair Nodes.before_replan Nodes.deliver
    Nodes.abstain Nodes.pool_of Nodes.add_hits Nodes.blocks Nodes.subquestions Nodes.claims_of
    Nodes.verdict_of Nodes.fix_queries initial_state same_text strip Nodes.or_question str_of
    is_space
run_script limit script = (invoke scripted limit (codes "duties?") script).0

outcome_of : Outcome (Option (DeepState ℕ)) → Option DeepOutcome
outcome_of (ok (some st)) = some st.outcome
outcome_of _ = none

-- The longest run needs its 24 nodes: 23 are not enough.
longest_23 : run_script 23 longest ≡ ok none
unfolding run_script
longest_23 = refl

longest_24 : outcome_of (run_script 24 longest) ≡ some delivered
unfolding run_script outcome_of
longest_24 = refl

hopeless_run :
    outcome_of (run_script 24 (codes "[q]" ∷ codes "d" ∷ codes "[n]" ∷ [])) ≡ some abstained
unfolding run_script outcome_of
hopeless_run = refl

abbrev doubtful : DeepState ℕ
doubtful = record (unfold initial_state in initial_state (codes "duties?")) {
  claims = record { text = []; verdict = unsupported; fix_query = [] } ∷ [];
  search_repairs = 2;
  replans = 1;
}

route-honest_example :
    let vs = verdicts_of doubtful.claims in
    (route doubtful ≡ to_deliver
      → has unsupported vs ≡ true
      → (2 ≤ doubtful.search_repairs) × ((2 ≤ doubtful.write_repairs) ⊎ (1 ≤ doubtful.replans)))
    × (route doubtful ≡ to_deliver
        → has misattributed vs ≡ true
        → (2 ≤ doubtful.write_repairs) × ((2 ≤ doubtful.search_repairs) ⊎ (1 ≤ doubtful.replans)))
    × ((route doubtful ≡ to_abstain) ↔ (is_only unanswerable vs ≡ true))
route-honest_example = route-honest doubtful

doubtful_is_delivered : route doubtful ≡ to_deliver
unfolding route verdicts_of initial_state
doubtful_is_delivered = refl
