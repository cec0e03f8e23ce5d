-- ===== src/Deep/Steps.antt =====
-- What each node does to the state, whatever the components answer
-- (the nodes of backend/src/sovereign_rag/agents/graph.py).
use sovereign_rag.Base.{
  ◌≤◌, ◌≡◌, refl, ◌⊎◌, inl, inr, Option, none, some, List, [], ◌∷◌, arith, length, length-take,
  select, not, is_empty, map, Option-cases,
}
use sovereign_rag.Text.{Text, strip}
use sovereign_rag.Effects.{
  Fault, value_error, lift, Ends, Anything, Allowed, Ends-pure, Ends-lift, Ends-bind,
  Ends-catch_value, Ends-weaken,
}
use sovereign_rag.Json.{Json, JsonModule, iterate, json_span, load_span, json_payload, str_of}
use sovereign_rag.Llm.{ask}
use sovereign_rag.Store.{SearchHit, Reranker}
use sovereign_rag.Deep.State.{DeepDeps, DeepState, Claim, abstained}
use sovereign_rag.Deep.Evidence.{
  IsDistinct, pool_of-IsDistinct, add_hits-IsDistinct, take-IsDistinct,
}
use sovereign_rag.Deep.Contract.{IsNarrowed, DepsEnd}
use sovereign_rag.Deep.Nodes
use sovereign_rag.Deep.Nodes.{
  subquestions, or_question, ask_items, add_hits, search_queries, narrow,
}

-- between one and four sub-questions
abbrev pub IsPlan : List Text → Type 0
IsPlan qs = (1 ≤ length qs) × (length qs ≤ 4)

or_question-IsPlan :
    (question : Text) (qs : List Text) → length qs ≤ 4 → IsPlan (or_question question qs)
unfolding or_question
or_question-IsPlan question [] h = omega arith
or_question-IsPlan question (q ∷ qs) h = omega arith

pub subquestions-IsPlan :
    (m : JsonModule) (question : Text) (raw : List Json) → IsPlan (subquestions m question raw)
unfolding subquestions
subquestions-IsPlan m question raw =
    or_question-IsPlan question _
      (omega (arith, length-take 4 (select (λ q. not (is_empty (strip q))) (map (str_of m) raw))))

module _ {W Vector Score : Type 0} {E : Fault → Type 0} (deps : DeepDeps W Vector Score)
    (h : DepsEnd E deps) where
  load_span-Allowed :
      (reply : Text) (o : Option Text)
      → json_span reply ≡ o
      → Allowed
          (λ raw. Allowed Anything E (iterate raw))
          (λ e. (e ≡ value_error) ⊎ E e)
          (load_span deps.json o)
  unfolding load_span
  load_span-Allowed reply none e = inl refl
  load_span-Allowed reply (some s) e = elim (Option-cases (deps.json.loads s)) [
    | inl bad ↦ rw (bad, Allowed) (inl refl)
    | inr (v, good) ↦ rw (good, Allowed) (h.loads reply s v e good)
  ]

  payload-Ends :
      (reply : Text)
      → Ends
          (λ raw. Allowed Anything E (iterate raw))
          (λ e. (e ≡ value_error) ⊎ E e)
          (lift {W = W} (json_payload deps.json reply))
  unfolding json_payload
  payload-Ends reply = Ends-lift _ (load_span-Allowed reply (json_span reply) refl)

  ask_items-Ends :
      (system_text user_text : Text)
      → Ends Anything (λ e. (e ≡ value_error) ⊎ E e) (ask_items deps system_text user_text)
  unfolding ask_items
  ask_items-Ends s u =
      Ends-bind (ask deps.llm s u) _ (Ends-weaken _ (h.asks s u) (λ a x. x) (λ e x. inr x))
        λ reply _.
          Ends-bind _ _ (payload-Ends reply)
            λ raw k. Ends-weaken _ (Ends-lift (iterate raw) k) (λ a x. x) (λ e x. inr x)

  pub plan-Ends :
      (st : DeepState Score)
      → Ends
          (λ st'.
            (qs : List Text) × IsPlan qs × (st' ≡ record st { plan = qs; pending_queries = qs }))
          E
          (Nodes.plan deps st)
  unfolding Nodes.plan
  plan-Ends st =
      Ends-bind {P = IsPlan} _ _
        (Ends-catch_value _ _
          (Ends-bind _ _ (ask_items-Ends _ _)
            λ raw _. Ends-pure _ (subquestions-IsPlan deps.json st.question raw))
          (Ends-pure _ (omega arith)))
        λ qs ok_qs. Ends-bind _ _ (h.emits _ _) λ _ _. Ends-pure _ (qs, ok_qs, refl)

  search_queries-Ends :
      (queries : List Text) (pool : List (SearchHit Score))
      → IsDistinct pool
      → Ends IsDistinct E (search_queries deps queries pool)
  unfolding search_queries
  search_queries-Ends [] pool d = Ends-pure pool d
  search_queries-Ends (q ∷ queries) pool d =
      Ends-bind (deps.embedder.embed_query q) _ (h.embeds q) λ v _.
        Ends-bind (deps.store.hybrid_search q v deps.user_id 12) _ (h.searches q v deps.user_id 12)
          λ hits _.
            search_queries-Ends queries (add_hits pool hits) (add_hits-IsDistinct pool hits d)

  narrow-Ends :
      (o : Option (Reranker W Score))
      → deps.reranker ≡ o
      → (question : Text) (merged : List (SearchHit Score))
      → Ends (IsNarrowed 10 merged) E (narrow deps o question merged)
  unfolding narrow
  narrow-Ends none e question merged = Ends-pure _ (record {
    bounded = omega (arith, length-take 10 merged);
    distinct = take-IsDistinct 10 merged;
  })
  narrow-Ends (some r) e question [] =
      Ends-pure _ (record { bounded = omega arith; distinct = λ d. d })
  narrow-Ends (some r) e question (x ∷ merged) = h.reranks r e question (x ∷ merged) 10

  pub search-Ends :
      (st : DeepState Score)
      → Ends
          (λ st'.
            (kept : List (SearchHit Score)) × (length kept ≤ 10)
            × IsDistinct kept
            × (st' ≡ record st { evidence = kept; pending_queries = [] }))
          E
          (Nodes.search deps st)
  unfolding Nodes.search
  search-Ends st =
      Ends-bind _ _ (search_queries-Ends st.pending_queries _ (pool_of-IsDistinct st.evidence))
        λ merged d. Ends-bind _ _ (narrow-Ends deps.reranker refl st.question merged) λ kept k.
          Ends-bind _ _ (h.emits _ _) λ _ _. Ends-pure _ (kept, k.bounded, k.distinct d, refl)

  pub write-Ends :
      (st : DeepState Score)
      → Ends (λ st'. (d : Text) × (st' ≡ record st { draft = d })) E (Nodes.write deps st)
  unfolding Nodes.write
  write-Ends st =
      Ends-bind _ _ (h.asks _ _) λ d _. Ends-bind _ _ (h.emits _ _) λ _ _. Ends-pure _ (d, refl)

  pub verify-Ends :
      (st : DeepState Score)
      → Ends (λ st'. (cs : List Claim) × (st' ≡ record st { claims = cs })) E (Nodes.verify deps st)
  unfolding Nodes.verify
  verify-Ends st =
      Ends-bind {P = Anything} _ _
        (Ends-catch_value _ _ (Ends-bind _ _ (ask_items-Ends _ _) λ raw _. Ends-pure _ tt)
          (Ends-pure _ tt))
        λ cs _. Ends-bind _ _ (h.emits _ _) λ _ _. Ends-pure _ (cs, refl)

  pub abstain-Ends :
      (st : DeepState Score)
      → Ends
          (λ st'. st' ≡ record st { outcome = abstained; evidence = []; draft = [] })
          E
          (Nodes.abstain deps st)
  unfolding Nodes.abstain
  abstain-Ends st = Ends-bind _ _ (h.emits _ _) λ _ _. Ends-pure _ refl
