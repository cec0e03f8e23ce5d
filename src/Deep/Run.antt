-- ===== src/Deep/Run.antt =====
-- Every run of the deep-search graph ends, within 24 nodes, delivered or abstained
-- (`build_deep_graph` and `initial_state` of backend/src/sovereign_rag/agents/graph.py).
use sovereign_rag.Base.{
  ℕ, zero, suc, ◌≤◌, ◌<◌, ◌≡◌, refl, sym, ◌∙◌, subst, ◌⊎◌, inl, inr, Option, none, some, [], true,
  arith, length,
}
use sovereign_rag.Text.{Text}
use sovereign_rag.Effects.{Fault, pure, Ends, Ends-pure, Ends-bind, Ends-weaken}
use sovereign_rag.Deep.State.{
  DeepDeps, DeepState, delivered, abstained, unanswerable, initial_state, max_search_repairs,
  max_write_repairs, max_replans,
}
use sovereign_rag.Deep.Route.{
  Decision, to_deliver, to_write, to_search, to_plan, to_abstain, is_only, verdicts_of, route,
}
use sovereign_rag.Deep.Nodes
use sovereign_rag.Deep.Graph.{
  Node, plan, search, write, verify, search_repair, write_repair, replan, deliver, abstain,
  after_route, next_node, run_node, execute, invoke,
}
use sovereign_rag.Deep.Evidence.{IsDistinct}
use sovereign_rag.Deep.Contract.{DepsEnd}
use sovereign_rag.Deep.Steps.{plan-Ends, search-Ends, write-Ends, verify-Ends, abstain-Ends}
use sovereign_rag.Deep.Budget.{CanEnter, after_route-CanEnter, route-outcome, nodes_left}

-- what every state between two nodes satisfies
pub record IsSound {Score : Type 0} (question : Text) (st : DeepState Score) : Type 0 where
  pub same_question : st.question ≡ question
  pub few_searches : st.search_repairs ≤ max_search_repairs
  pub few_writes : st.write_repairs ≤ max_write_repairs
  pub few_replans : st.replans ≤ max_replans
  pub few_passages : length st.evidence ≤ 10
  pub no_repeats : IsDistinct st.evidence

-- Delivered because the router said so, or abstained with nothing to show because the verifier
-- found every claim unanswerable.
abbrev pub IsClosed : {Score : Type 0} → DeepState Score → Type 0
IsClosed st =
    (st.outcome ≡ delivered) × (route st ≡ to_deliver)
    ⊎ (st.outcome ≡ abstained)
      × (st.evidence ≡ [])
      × (st.draft ≡ [])
      × (is_only unanswerable (verdicts_of st.claims) ≡ true)

abbrev pub IsFinal : {Score : Type 0} → Text → Option (DeepState Score) → Type 0
IsFinal question none = ⊥
IsFinal question (some st) = IsSound question st × IsClosed st

-- where a node leaves the run: at `END` with a final state, or before a node with less to do
abbrev Advances : {Score : Type 0} → Text → ℕ → DeepState Score → Option Node → Type 0
Advances question budget st none = IsSound question st × IsClosed st
Advances question budget st (some node) =
    IsSound question st × CanEnter node st × (nodes_left node st < budget)

-- After the verifier, whichever way the router goes, less is left to do.
nodes_left-after_route :
    {Score : Type 0} (st : DeepState Score) (d : Decision)
    → CanEnter (after_route d) st
    → nodes_left (after_route d) st < nodes_left verify st
unfolding after_route
nodes_left-after_route st to_write c = omega arith
nodes_left-after_route st to_search c = omega arith
nodes_left-after_route st to_plan c = omega arith
nodes_left-after_route st to_abstain c = omega arith
nodes_left-after_route st to_deliver c = omega arith

module _ {W Vector Score : Type 0} {E : Fault → Type 0} (deps : DeepDeps W Vector Score)
    (h : DepsEnd E deps) (question : Text) where
  abbrev Next : Node → DeepState Score → DeepState Score → Type 0
  Next node st st' = Advances question (nodes_left node st) st' (next_node node st')

  run_node-Ends :
      (node : Node) (st : DeepState Score)
      → IsSound question st
      → CanEnter node st
      → Ends (Next node st) E (run_node deps node st)
  unfolding run_node next_node Nodes.before_search_repair Nodes.before_write_repair
      Nodes.before_replan Nodes.deliver
  run_node-Ends plan st s c =
      Ends-weaken _ (plan-Ends deps h st)
        (λ st' (qs, okqs, e). subst (Next plan st) (sym e) (assumption, tt, omega arith)) (λ e x. x)
  run_node-Ends search st s c =
      Ends-weaken _ (search-Ends deps h st)
        (λ st' (kept, few, d, e). subst (Next search st) (sym e) (assumption, tt, omega arith))
        (λ e x. x)
  run_node-Ends write st s c =
      Ends-weaken _ (write-Ends deps h st)
        (λ st' (d, e). subst (Next write st) (sym e) (assumption, tt, omega arith)) (λ e x. x)
  run_node-Ends verify st s c =
      Ends-weaken _ (verify-Ends deps h st)
        (λ st' (cs, e).
          let checked : DeepState Score = record st { claims = cs } in
          let entry = after_route-CanEnter checked in
          subst (Next verify st) (sym e)
            (assumption, entry, nodes_left-after_route checked (route checked) entry))
        (λ e x. x)
  run_node-Ends search_repair st s c = Ends-pure _ (ground arith, tt, omega arith)
  run_node-Ends write_repair st s c = Ends-pure _ (ground arith, tt, omega arith)
  run_node-Ends replan st s c = Ends-pure _ (ground arith, tt, omega arith)
  run_node-Ends deliver st s c =
      Ends-pure _ (ground arith, inl (refl, route-outcome st delivered ∙ c))
  run_node-Ends abstain st s c =
      Ends-weaken _ (abstain-Ends deps h st)
        (λ st' e. subst (Next abstain st) (sym e) (ground arith, inr (refl, refl, refl, c)))
        (λ e x. x)

  follow-Ends :
      (fuel : ℕ) (budget : ℕ) (st : DeepState Score) (o : Option Node)
      → ((node : Node)
          → IsSound question st
          → CanEnter node st
          → nodes_left node st ≤ fuel
          → Ends (IsFinal question) E (execute deps fuel node st))
      → budget ≤ suc fuel
      → Advances question budget st o
      → Ends {W = W} {A = Option (DeepState Score)}
          (IsFinal question)
          E
          (elim o [ none ↦ pure (some st) | some node ↦ execute deps fuel node st ])
  follow-Ends fuel budget st none go b a = Ends-pure _ a
  follow-Ends fuel budget st (some node) go b a = go node a.0 a.1 (omega arith)

  execute-Ends :
      (fuel : ℕ) (node : Node) (st : DeepState Score)
      → IsSound question st
      → CanEnter node st
      → nodes_left node st ≤ fuel
      → Ends (IsFinal question) E (execute deps fuel node st)
  unfolding execute
  execute-Ends zero plan st s c b = absurd (omega arith)
  execute-Ends zero _ st s c b = absurd (omega arith)
  execute-Ends (suc fuel) node st s c b = Ends-bind _ _ (run_node-Ends node st s c) λ st' a.
      follow-Ends fuel (nodes_left node st) st' (next_node node st')
        (λ node' s' c' b'. execute-Ends fuel node' st' s' c' b') b a

  -- Let E be any set of faults that contains those which the components given to the deep-search
  -- graph may raise, and let a reranker return at most k hits with no new repetition. Under any
  -- limit of at least 24 nodes, a run from the initial state of a question, in any world, either
  -- raises a fault of E or reaches END: it never runs out of nodes. The final state keeps the
  -- question, respects the three repair budgets, holds at most ten passages with no chunk twice,
  -- and is either delivered with the router deciding so, or abstained with no evidence, an empty
  -- draft and only unanswerable verdicts.
  pub invoke-IsFinal :
      (limit : ℕ) → 24 ≤ limit → Ends (IsFinal question) E (invoke deps limit question)
  unfolding invoke initial_state
  invoke-IsFinal limit b =
      execute-Ends limit plan (initial_state question) (ground arith) tt (omega arith)
