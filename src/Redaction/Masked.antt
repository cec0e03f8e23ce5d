-- ===== src/Redaction/Masked.antt =====
-- What the replacement of the patterns leaves of a text
-- (`redact_patterns`, backend/src/sovereign_rag/redaction.py).
use sovereign_rag.Base.{
  Every, ℕ, zero, suc, ◌≤◌, refl, inl, Option, none, some, List, [], ◌∷◌, ◌++◌, length, arith, IsIn,
}
use sovereign_rag.Text.{Text}
use sovereign_rag.Redaction.{
  phone_pattern, avs_pattern, iban_pattern, codes, email_pattern, UnicodeData, rules, mask_of,
}
use sovereign_rag.Redaction.Patterns.{Spot, Regex, matches, sub_from, sub}
use sovereign_rag.Redaction.Matches.{
  IsMatch, least, IsMatch-least, matches-IsMatch, IsMatch-matches,
}

-- `out` is the text with matches replaced by the mask, leftmost first: a character is kept only
-- where no match starts
pub data Masked (r : Regex) (mask : Text) : Spot → Text → Type 0 where
  over : (b : Option ℕ) → Masked r mask (b, []) []
  kept :
      (b : Option ℕ) (c : ℕ) (s out : Text)
      → ((z : Spot) → IsMatch r (b, c ∷ s) z → ⊥)
      → Masked r mask (some c, s) out
      → Masked r mask (b, c ∷ s) (c ∷ out)
  masked :
      (a z : Spot) (out : Text)
      → IsMatch r a z
      → Masked r mask z out
      → Masked r mask a (mask ++ out)

module _ (r : Regex) (mask : Text) (some_taken : 1 ≤ least r) where
  sub_from-Masked : (n : ℕ) (a : Spot) → length a.1 ≤ n → Masked r mask a (sub_from n r mask a)
  unfolding sub_from
  sub_from-Masked zero (b, []) h = over b
  sub_from-Masked zero (b, c ∷ s) h = absurd (omega arith)
  sub_from-Masked (suc n) (b, []) h = over b
  sub_from-Masked (suc n) (b, c ∷ s) h =
      go (sub_from-Masked n) (matches r (b, c ∷ s)) (matches-IsMatch r (b, c ∷ s))
        (IsMatch-matches r (b, c ∷ s))
    where
      go :
          ((z : Spot) → length z.1 ≤ n → Masked r mask z (sub_from n r mask z))
          → (found : List Spot) → ((z : Spot) → IsIn z found → IsMatch r (b, c ∷ s) z)
          → ((z : Spot) → IsMatch r (b, c ∷ s) z → IsIn z found)
          → Masked r mask
              (b, c ∷ s)
              (elim found [
                | [] ↦ c ∷ sub_from n r mask (some c, s)
                | z ∷ later ↦ mask ++ sub_from n r mask z
              ])
      go rest [] sound whole =
          kept b c s (sub_from n r mask (some c, s)) whole (rest (some c, s) (omega arith))
      go rest (z ∷ later) sound whole =
          let m = sound z (inl refl) in
          masked (b, c ∷ s) z (sub_from n r mask z) m
            (rest z (omega (arith, IsMatch-least r (b, c ∷ s) z m)))

  -- the rounds of `sub` are enough
  pub sub-Masked : (text : Text) → Masked r mask (none, text) (sub r mask text)
  unfolding sub
  sub-Masked text = sub_from-Masked (length text) (none, text) (omega arith)

-- with any of the rules, the rounds are enough
pub rules-Masked :
    (u : UnicodeData)
    → Every
        (λ r.
          (text : Text)
          → Masked r.pattern (mask_of r.label) (none, text) (sub r.pattern (mask_of r.label) text))
        (rules u)
rules-Masked u = (
  sub-Masked (email_pattern u) (mask_of (codes "email")) (omega arith),
  (
    sub-Masked (iban_pattern u) (mask_of (codes "iban")) (omega arith),
    (
      sub-Masked (avs_pattern u) (mask_of (codes "avs")) (omega arith),
      (sub-Masked (phone_pattern u) (mask_of (codes "phone")) (omega arith), tt),
    ),
  ),
)
