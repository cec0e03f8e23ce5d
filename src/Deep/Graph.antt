-- ===== src/Deep/Graph.antt =====
-- The compiled graph: which node follows which, and the run that `ainvoke` makes of it
-- (backend/src/sovereign_rag/agents/graph.py, the `StateGraph` at the end of `build_deep_graph`).
use sovereign_rag.Base.{ℕ, zero, suc, Option, none, some}
use sovereign_rag.Text.{Text}
use sovereign_rag.Effects.{Run, pure, ◌>>=◌}
use sovereign_rag.Deep.State.{DeepDeps, DeepState, initial_state}
use sovereign_rag.Deep.Route.{Decision, to_write, to_search, to_plan, to_abstain, to_deliver, route}
use sovereign_rag.Deep.Nodes

pub data Node : Type 0 where
  plan search write verify search_repair write_repair replan deliver abstain : Node

-- `add_conditional_edges("verify", route, …)`
unfoldable pub after_route : Decision → Node
after_route to_search = search_repair
after_route to_write = write_repair
after_route to_plan = replan
after_route to_deliver = deliver
after_route to_abstain = abstain

-- the edges; `none` is `END`
unfoldable pub next_node : {Score : Type 0} → Node → DeepState Score → Option Node
unfolding after_route
next_node plan st = some search
next_node search st = some write
next_node write st = some verify
next_node verify st = some (after_route (route st))
next_node search_repair st = some search
next_node write_repair st = some write
next_node replan st = some plan
next_node deliver st = none
next_node abstain st = none

module _ {W Vector Score : Type 0} (deps : DeepDeps W Vector Score) where
  unfoldable pub run_node : Node → DeepState Score → Run W (DeepState Score)
  run_node plan = Nodes.plan deps
  run_node search = Nodes.search deps
  run_node write = Nodes.write deps
  run_node verify = Nodes.verify deps
  run_node search_repair = Nodes.before_search_repair deps
  run_node write_repair = Nodes.before_write_repair deps
  run_node replan = Nodes.before_replan deps
  run_node deliver = Nodes.deliver deps
  run_node abstain = Nodes.abstain deps

  -- `fuel` is the bound on the nodes that run; `none`: it was reached before `END`
  unfoldable pub execute : ℕ → Node → DeepState Score → Run W (Option (DeepState Score))
  execute zero node st = pure none
  execute (suc fuel) node st = do
    st' ← run_node node st
    elim (next_node node st') [ none ↦ pure (some st') | some node' ↦ execute fuel node' st' ]

  -- `graph.ainvoke(initial_state(question))` under a limit on the nodes that run
  unfoldable pub invoke : ℕ → Text → Run W (Option (DeepState Score))
  unfolding execute
  invoke limit question = execute limit plan (initial_state question)
