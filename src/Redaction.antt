-- ===== src/Redaction.antt =====
-- The redactors (backend/src/sovereign_rag/redaction.py) and the client that masks what it sends
-- (backend/src/sovereign_rag/llm/redacting.py).
pub mod Patterns
pub mod Matches
pub mod Masked
pub mod Language
pub mod Names
pub mod Client
mod Tests
use sovereign_rag.Base.{
  ℕ, ◌+◌, ◌≡◌, Option, none, some, List, [], ◌∷◌, ◌++◌, Bool, true, false, ◌&&◌, ◌||◌, ltb, leb,
  ◌==◌, if◌then◌else◌, take, drop, length, exists_in, sort_by, select, map,
}
use sovereign_rag.Text.{Text, codes, is_space, same_text}
use sovereign_rag.Redaction.Patterns.{
  Regex, empty, one, many, boundary, not_behind, seq, alt, upto, plus, times, between, sub,
}

-- What the program takes from the character database behind `str` and `re`.
pub record UnicodeData : Type 0 where
  -- `\w` but for the underscore
  pub is_alnum : ℕ → Bool
  -- `\d`
  pub is_decimal : ℕ → Bool
  pub casefold : Text → Text

pub record Rule : Type 0 where
  pub label : Text
  pub pattern : Regex

module _ (u : UnicodeData) where
  abbrev pub word : ℕ → Bool
  word c = u.is_alnum c || c == b'_'

  abbrev pub edge : Regex
  edge = boundary word

  abbrev pub digit : Regex
  digit = one u.is_decimal

  -- `[.\s]`
  abbrev pub gap_or_dot : Regex
  gap_or_dot = one (λ c. c == b'.' || is_space c)

  abbrev pub is_separator : ℕ → Bool
  is_separator c = is_space c || c == b'.' || c == b'/' || c == b'-'

  abbrev pub is_upper : ℕ → Bool
  is_upper c = leb 65 c && leb c 90

  abbrev pub email_pattern : Regex
  email_pattern = seq edge (
      seq (plus (λ c. word c || c == b'.' || c == b'+' || c == b'-')) (
        seq (one (λ c. c == b'@')) (
          seq (plus (λ c. word c || c == b'-')) (
            seq (one (λ c. c == b'.')) (
              seq (one (λ c. word c || c == b'.' || c == b'-'))
                (seq (plus (λ c. word c || c == b'.' || c == b'-')) edge))))))

  abbrev pub iban_pattern : Regex
  iban_pattern = seq edge (
      seq (times 2 (one is_upper)) (
        seq (times 2 digit) (
          seq
            (between 3 5 (
              seq (upto 1 (one is_space))
                (between 2 2 (one (λ c. is_upper c || (leb 48 c && leb c 57))))))
            edge)))

  abbrev pub avs_pattern : Regex
  avs_pattern = seq edge (
      seq (one (λ c. c == b'7')) (
        seq (one (λ c. c == b'5')) (
          seq (one (λ c. c == b'6')) (
            seq gap_or_dot (
              seq (times 4 digit) (
                seq gap_or_dot
                  (seq (times 4 digit) (seq gap_or_dot (seq (times 2 digit) edge)))))))))

  abbrev pub no_word_behind : Regex
  no_word_behind = not_behind (λ c. word c || c == b'.')

  abbrev pub zero_digit : Regex
  zero_digit = one (λ c. c == b'0')

  abbrev pub phone_pattern : Regex
  phone_pattern =
      alt
        (seq no_word_behind (
          seq (alt (one (λ c. c == b'+')) (seq zero_digit zero_digit)) (
            seq (times 2 digit) (
              seq (upto 1 (one is_separator)) (
                seq (upto 1 (seq (one (λ c. c == 40)) (seq zero_digit (one (λ c. c == 41))))) (
                  seq (between 3 3 (seq (upto 1 (one is_separator)) (between 1 3 digit))) edge))))))
        (seq no_word_behind (
          seq zero_digit (
            seq (times 2 digit) (
              seq (one is_separator) (
                seq (times 3 digit) (
                  seq (one is_separator)
                    (seq (times 2 digit) (seq (one is_separator) (seq (times 2 digit) edge)))))))))

  -- `_RULES`
  abbrev pub rules : List Rule
  rules =
      record { label = codes "email"; pattern = email_pattern }
      ∷ record { label = codes "iban"; pattern = iban_pattern }
      ∷ record { label = codes "avs"; pattern = avs_pattern }
      ∷ record { label = codes "phone"; pattern = phone_pattern }
      ∷ []

abbrev pub mask_of : Text → Text
mask_of label = codes "[" ++ (label ++ codes " redacted]")

-- the loop of `redact_patterns`
unfoldable pub apply_rules : List Rule → Text → Text
unfolding sub
apply_rules [] text = text
apply_rules (r ∷ rs) text = apply_rules rs (sub r.pattern (mask_of r.label) text)

unfoldable pub redact_patterns : UnicodeData → Text → Text
unfolding apply_rules
redact_patterns u text = apply_rules (rules u) text
