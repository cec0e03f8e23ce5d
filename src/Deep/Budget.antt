-- ===== src/Deep/Budget.antt =====
-- The repair budgets: what the routing guards, and a bound on the nodes that are still to run
-- (`route` and the repair nodes of backend/src/sovereign_rag/agents/graph.py).
use sovereign_rag.Base.{ℕ, ◌+◌, ◌-◌, ◌*◌, ◌<◌, ◌≡◌, refl, Bool, true, arith, is_empty}
use sovereign_rag.Deep.State.{
  DeepState, DeepOutcome, unsupported, misattributed, unanswerable, max_search_repairs,
  max_write_repairs, max_replans,
}
use sovereign_rag.Deep.Route.{
  Decision, to_write, to_search, to_plan, to_abstain, to_deliver, verdicts_of, has, is_only,
  is_settled, decide_route, route,
}
use sovereign_rag.Deep.Graph.{
  Node, plan, search, write, verify, search_repair, write_repair, replan, deliver, abstain,
  after_route,
}

-- what holds of the state when a node is entered after `verify`
abbrev pub CanEnter : {Score : Type 0} → Node → DeepState Score → Type 0
CanEnter search_repair st = st.search_repairs < max_search_repairs
CanEnter write_repair st = st.write_repairs < max_write_repairs
CanEnter replan st = st.replans < max_replans
CanEnter deliver st = route st ≡ to_deliver
CanEnter abstain st = is_only unanswerable (verdicts_of st.claims) ≡ true
CanEnter _ st = Unit

decide_route-guards :
    (no_claims only bad_evidence bad_citation settled : Bool) (s w r : ℕ)
    → let d = decide_route no_claims only bad_evidence bad_citation settled s w r in
      (d ≡ to_search → s < max_search_repairs)
      × (d ≡ to_write → w < max_write_repairs)
      × (d ≡ to_plan → r < max_replans)
      × (d ≡ to_abstain → only ≡ true)
unfolding decide_route
decide_route-guards no_claims only bad_evidence bad_citation settled s w r = ground arith

module _ {Score : Type 0} (st : DeepState Score) where
  guards :
      (route st ≡ to_search → st.search_repairs < max_search_repairs)
      × (route st ≡ to_write → st.write_repairs < max_write_repairs)
      × (route st ≡ to_plan → st.replans < max_replans)
      × (route st ≡ to_abstain → is_only unanswerable (verdicts_of st.claims) ≡ true)
  unfolding route
  guards =
      let vs = verdicts_of st.claims in
      decide_route-guards (is_empty st.claims) (is_only unanswerable vs) (has unsupported vs)
        (has misattributed vs) (is_settled vs) st.search_repairs st.write_repairs st.replans

  entered : (d : Decision) → route st ≡ d → CanEnter (after_route d) st
  unfolding after_route
  entered to_write e = guards.1 e
  entered to_search e = guards.0 e
  entered to_plan e = guards.2 e
  entered to_abstain e = guards.3 e
  entered to_deliver e = e

  -- The node that the verifier is followed by is entered under its guard.
  pub after_route-CanEnter : CanEnter (after_route (route st)) st
  after_route-CanEnter = entered (route st) refl

-- The router does not read the outcome.
pub route-outcome :
    {Score : Type 0} (st : DeepState Score) (o : DeepOutcome)
    → route (record st { outcome = o }) ≡ route st
unfolding route
route-outcome st o = refl

-- the nodes that the repairs left can still run
abbrev pub repairs_left : ℕ → ℕ → ℕ → ℕ
repairs_left s w r =
    4 * (max_search_repairs - s) + 3 * (max_write_repairs - w) + 5 * (max_replans - r)

-- the nodes that can run from here on, this one included
abbrev pub nodes_left : {Score : Type 0} → Node → DeepState Score → ℕ
nodes_left plan st = 5 + repairs_left st.search_repairs st.write_repairs st.replans
nodes_left search st = 4 + repairs_left st.search_repairs st.write_repairs st.replans
nodes_left write st = 3 + repairs_left st.search_repairs st.write_repairs st.replans
nodes_left verify st = 2 + repairs_left st.search_repairs st.write_repairs st.replans
nodes_left search_repair st = 5 + repairs_left (st.search_repairs + 1) st.write_repairs st.replans
nodes_left write_repair st = 4 + repairs_left st.search_repairs (st.write_repairs + 1) st.replans
nodes_left replan st = 6 + repairs_left st.search_repairs st.write_repairs (st.replans + 1)
nodes_left deliver st = 1
nodes_left abstain st = 1
