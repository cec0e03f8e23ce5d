-- ===== src/Auth/Keys.antt =====
-- Who passes the admin gate (backend/src/sovereign_rag/auth.py).
use sovereign_rag.Base.{
  ◌==◌, ==_iff, ◌≡◌, ◌⊎◌, refl, ap, subst, inl, inr, Option, none, some, List, [], ◌∷◌, ◌++◌, Bool,
  true, false, not, ◌||◌, Bool-cases, if◌then◌else◌, is_empty, arith, IsIn, exists_in,
}
use sovereign_rag.Text.{Text, codes, same_text, same_text_sound}
use sovereign_rag.Auth.{
  User, partition, lower, match_keys, user_of, authenticate, passed, get_current_user,
  require_admin,
}

matched_lem :
    (candidate key user_id id : Text) (matched : Option Text) (hit : Bool)
    → same_text candidate key ≡ hit
    → (if hit then some user_id else matched) ≡ some id
    → ◌≡◌ {A = Text × Text} (candidate, id) (key, user_id) ⊎ (matched ≡ some id)
matched_lem candidate key user_id id matched true h q =
    let same : user_id ≡ id = ground arith in inl (rw (same_text_sound candidate key h, same) refl)
matched_lem candidate key user_id id matched false h q = inr q

match_keys-IsIn :
    (keys : List (Text × Text)) (candidate id : Text) (matched : Option Text)
    → match_keys keys candidate matched ≡ some id
    → IsIn (candidate, id) keys ⊎ (matched ≡ some id)
unfolding match_keys
match_keys-IsIn [] candidate id matched e = inr e
match_keys-IsIn ((key, user_id) ∷ keys) candidate id matched e =
    elim (match_keys-IsIn keys candidate id _ e) [
      | inl k ↦ inl (inr k)
      | inr q ↦
          elim (matched_lem candidate key user_id id matched (same_text candidate key) refl q) [
            | inl k ↦ inl (inl k)
            | inr k ↦ inr k
          ]
    ]

partition_lem :
    (s : Text) → is_empty (partition s).1 ≡ false → s ≡ (partition s).0 ++ b' ' ∷ (partition s).1
unfolding partition
partition_lem [] e = absurd (cc e)
partition_lem (c ∷ s) e = elim (Bool-cases (c == b' ')) [
  | inl space ↦ rw space (ap (λ x. x ∷ s) ((==_iff c b' ').0 space))
  | inr other ↦
      let more : is_empty (partition s).1 ≡ false = ground arith in
      rw other (ap (λ t. c ∷ t) (partition_lem s more))
]

-- the header is `bearer`, in any case, a space and the key of this user, who is an admin
pub record IsAdmitted (keys : List (Text × Text)) (admins : List Text) (header : Option Text)
    (user : User) : Type 0 where
  pub scheme : Text
  pub candidate : Text
  pub sent : header ≡ some (scheme ++ b' ' ∷ candidate)
  pub bearer : lower scheme ≡ codes "bearer"
  pub configured : IsIn (candidate, user.id) keys
  pub listed : exists_in (same_text user.id) admins ≡ true

gate_lem :
    (admins : List Text) (m : Option Text) (user : User)
    → require_admin (get_current_user (user_of admins m)) ≡ passed user
    → (m ≡ some user.id) × (exists_in (same_text user.id) admins ≡ true)
unfolding require_admin get_current_user
gate_lem admins none user e = absurd (cc e)
gate_lem admins (some id) user e = elim (Bool-cases (exists_in (same_text id) admins)) [
  | inl admin ↦
      let same : id ≡ user.id = ground arith in
      (ap some same, subst (λ i. exists_in (same_text i) admins ≡ true) same admin)
  | inr other ↦ absurd (ground arith)
]

-- Who passes the admin gate behind API key authentication has sent a header of the scheme bearer,
-- in any case, a space and a key that is configured for this very user, and the user is one of
-- the configured admins.
pub require_admin-IsAdmitted :
    (keys : List (Text × Text)) (admins : List Text) (header : Option Text) (user : User)
    → require_admin (get_current_user (authenticate keys admins header)) ≡ passed user
    → IsAdmitted keys admins header user
unfolding authenticate
require_admin-IsAdmitted keys admins none user e =
    absurd (ground (arith, gate_lem admins none user e))
require_admin-IsAdmitted keys admins (some header) user e =
    let (scheme, candidate) = partition header in
    elim (Bool-cases (not (same_text (lower scheme) (codes "bearer")) || is_empty candidate)) [
      | inl bad ↦ absurd (
          ground (
            arith,
            gate_lem admins none user (
                subst
                  (λ b.
                    require_admin (
                      get_current_user
                        (if b then none else user_of admins (match_keys keys candidate none)))
                    ≡ passed user)
                  bad e),
          ))
      | inr good ↦
          let found = gate_lem admins (match_keys keys candidate none) user (
            subst
              (λ b.
                require_admin (
                  get_current_user
                    (if b then none else user_of admins (match_keys keys candidate none)))
                ≡ passed user)
              good e) in
          let filled : is_empty candidate ≡ false = ground arith in
          let named : same_text (lower scheme) (codes "bearer") ≡ true = ground arith in
          record {
            scheme = scheme;
            candidate = candidate;
            sent = ap some (partition_lem header filled);
            bearer = same_text_sound (lower scheme) (codes "bearer") named;
            configured = elim (match_keys-IsIn keys candidate user.id none found.0) [
              | inl k ↦ k
              | inr k ↦ absurd (cc k)
            ];
            listed = found.1;
          }
    ]
