-- ===== src/Deep/Decisions.antt =====
-- What a routing decision says of the verdicts and of the budgets
-- (`route` of backend/src/sovereign_rag/agents/graph.py).
use sovereign_rag.Base.{ℕ, ◌≤◌, ◌≡◌, ◌↔◌, ◌⊎◌, Bool, true, false, List, [], ◌∷◌, arith, is_empty}
use sovereign_rag.Deep.State.{
  ClaimVerdict, supported, misattributed, unsupported, unanswerable, Claim, DeepState,
}
use sovereign_rag.Deep.Route.{
  to_abstain, to_deliver, verdicts_of, has, is_only, is_settled, decide_route, route,
}

has-is_settled :
    (vs : List ClaimVerdict)
    → (has unsupported vs ≡ true → is_settled vs ≡ false)
      × (has misattributed vs ≡ true → is_settled vs ≡ false)
has-is_settled [] = ground arith
has-is_settled (supported ∷ vs) = ground (arith, has-is_settled vs)
has-is_settled (misattributed ∷ vs) = ground (arith, has-is_settled vs)
has-is_settled (unsupported ∷ vs) = ground (arith, has-is_settled vs)
has-is_settled (unanswerable ∷ vs) = ground (arith, has-is_settled vs)

abbrev Ladder : Bool → Bool → Bool → Bool → Bool → ℕ → ℕ → ℕ → Type 0
Ladder no_claims only unsup misatt settled s w r =
    let d = decide_route no_claims only unsup misatt settled s w r in
    (d ≡ to_deliver → unsup ≡ true → (2 ≤ s) × ((2 ≤ w) ⊎ (1 ≤ r)))
    × (d ≡ to_deliver → misatt ≡ true → (2 ≤ w) × ((2 ≤ s) ⊎ (1 ≤ r)))
    × ((d ≡ to_abstain) ↔ (only ≡ true))

decide_route_lem :
    (no_claims only unsup misatt settled : Bool) (s w r : ℕ)
    → (unsup ≡ true → settled ≡ false)
    → (misatt ≡ true → settled ≡ false)
    → (no_claims ≡ true → (unsup ≡ false) × (misatt ≡ false) × (only ≡ false))
    → Ladder no_claims only unsup misatt settled s w r
unfolding decide_route
decide_route_lem no_claims only unsup misatt settled s w r h k n = ground arith

no_verdicts :
    (claims : List Claim)
    → is_empty claims ≡ true
    → let vs = verdicts_of claims in
      (has unsupported vs ≡ false)
      × (has misattributed vs ≡ false)
      × (is_only unanswerable vs ≡ false)
unfolding verdicts_of
no_verdicts [] e = ground arith
no_verdicts (c ∷ claims) e = absurd (cc e)

-- The router abstains exactly when there are claims and all are unanswerable. It delivers a draft
-- with an unsupported claim only after two search repairs and, besides, two write repairs or a
-- replan; and a draft with a misattributed claim only after two write repairs and, besides, two
-- search repairs or a replan.
pub route-honest :
    {Score : Type 0} (st : DeepState Score)
    → let vs = verdicts_of st.claims in
      (route st ≡ to_deliver
        → has unsupported vs ≡ true
        → (2 ≤ st.search_repairs) × ((2 ≤ st.write_repairs) ⊎ (1 ≤ st.replans)))
      × (route st ≡ to_deliver
          → has misattributed vs ≡ true
          → (2 ≤ st.write_repairs) × ((2 ≤ st.search_repairs) ⊎ (1 ≤ st.replans)))
      × ((route st ≡ to_abstain) ↔ (is_only unanswerable vs ≡ true))
unfolding route
route-honest st =
    let vs = verdicts_of st.claims in
    decide_route_lem (is_empty st.claims) (is_only unanswerable vs) (has unsupported vs)
      (has misattributed vs) (is_settled vs) st.search_repairs st.write_repairs st.replans
      (has-is_settled vs).0 (has-is_settled vs).1 (no_verdicts st.claims)
