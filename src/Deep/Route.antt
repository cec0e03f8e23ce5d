-- ===== src/Deep/Route.antt =====
-- The routing decision after the verifier (`route` of backend/src/sovereign_rag/agents/graph.py).
use sovereign_rag.Base.{
  ℕ, List, map, Bool, true, false, not, ◌&&◌, ◌||◌, ltb, leb, if◌then◌else◌, is_empty, exists_in,
  forall_in,
}
use sovereign_rag.Deep.State.{
  ClaimVerdict, supported, misattributed, unsupported, unanswerable, Claim, DeepState,
  max_search_repairs, max_write_repairs, max_replans,
}

pub data Decision : Type 0 where
  to_write to_search to_plan to_abstain to_deliver : Decision

-- `==` of two verdicts
abbrev pub same_verdict : ClaimVerdict → ClaimVerdict → Bool
same_verdict supported supported = true
same_verdict misattributed misattributed = true
same_verdict unsupported unsupported = true
same_verdict unanswerable unanswerable = true
same_verdict _ _ = false

-- `{c["verdict"] for c in claims}`, as the list of its elements
unfoldable pub verdicts_of : List Claim → List ClaimVerdict
verdicts_of claims = map (λ c. c.verdict) claims

abbrev pub has : ClaimVerdict → List ClaimVerdict → Bool
has v verdicts = exists_in (same_verdict v) verdicts

-- `verdicts == {v}`
abbrev pub is_only : ClaimVerdict → List ClaimVerdict → Bool
is_only v verdicts = not (is_empty verdicts) && forall_in (same_verdict v) verdicts

-- `verdicts <= {"supported", "unanswerable"}`
abbrev pub is_settled : List ClaimVerdict → Bool
is_settled verdicts =
    forall_in (λ v. same_verdict supported v || same_verdict unanswerable v) verdicts

-- The ladder, over what it tests: no claims, only unanswerable, an unsupported and a misattributed
-- verdict, all settled, and the three counters.
unfoldable pub decide_route : Bool → Bool → Bool → Bool → Bool → ℕ → ℕ → ℕ → Decision
decide_route no_claims only bad_evidence bad_citation settled s w r =
    if no_claims
    then to_deliver
    else if only
    then to_abstain
    else if bad_evidence && ltb s max_search_repairs
    then to_search
    else if bad_citation && ltb w max_write_repairs
    then to_write
    else if settled || (leb max_search_repairs s && leb max_write_repairs w)
    then to_deliver
    else if ltb r max_replans
    then to_plan
    else to_deliver

unfoldable pub route : {Score : Type 0} → DeepState Score → Decision
unfolding decide_route
route st =
    let vs = verdicts_of st.claims in
    decide_route (is_empty st.claims) (is_only unanswerable vs) (has unsupported vs)
      (has misattributed vs) (is_settled vs) st.search_repairs st.write_repairs st.replans
