-- ===== src/Redaction/Language.antt =====
-- The guess of a text's language (`guess_language`, backend/src/sovereign_rag/redaction.py).
use sovereign_rag.Base.{
  ℕ, suc, ◌≤◌, ◌≡◌, refl, inl, inr, List, [], ◌∷◌, ◌++◌, Bool, ◌&&◌, ◌||◌, Bool-cases, leb, ltb,
  ◌==◌, if◌then◌else◌, length, is_empty, exists_in, select, arith,
}
use sovereign_rag.Text.{Text, codes, same_text}
use sovereign_rag.Redaction.{UnicodeData}

-- the keys of `_STOPWORDS`, in their order
pub data Language : Type 0 where
  french german english : Language

-- `text.split()` of the literals below
unfoldable pub split_from : Text → Text → List Text
split_from acc [] = acc ∷ []
split_from acc (c ∷ s) = if c == b' ' then acc ∷ split_from [] s else split_from (acc ++ c ∷ []) s

-- `_STOPWORDS`
unfoldable pub stopwords : Language → List Text
unfolding split_from
stopwords french = split_from [] (codes "le la les des une et dans pour que qui sur sont aux cette")
stopwords german =
    split_from [] (codes "der die das und nicht mit ist von den einer werden oder auch")
stopwords english =
    split_from [] (codes "the of and to in for is that with on are this which shall")

-- `[a-zà-üä-öß]`
unfoldable pub in_word : ℕ → Bool
in_word c = (leb 97 c && leb c 122) || (leb 224 c && leb c 252) || c == 223

abbrev pub ended : Text → List Text → List Text
ended acc rest = if is_empty acc then rest else acc ∷ rest

-- `_WORD.findall(text)`; `acc` is the word that has begun
unfoldable pub words_from : Text → Text → List Text
unfolding in_word
words_from acc [] = ended acc []
words_from acc (c ∷ s) =
    let inside = words_from (acc ++ c ∷ []) s in
    let outside = words_from [] s in if in_word c then inside else ended acc outside

-- `scores[lang]`
unfoldable pub score : UnicodeData → Text → Language → ℕ
unfolding words_from stopwords
score u text lang =
    length
      (select (λ w. exists_in (same_text w) (stopwords lang)) (words_from [] (u.casefold text)))

-- one step of `max` over the keys: an equal score does not replace an earlier key
abbrev pub better : (Language → ℕ) → Language → Language → Language
better scores best lang = if ltb (scores best) (scores lang) then lang else best

abbrev pub best_of : (Language → ℕ) → Language
best_of scores = better scores (better scores french german) english

unfoldable pub guess_language : UnicodeData → Text → Language
unfolding score
guess_language u text =
    let best = best_of (score u text) in if ltb 0 (score u text best) then best else english

-- where a language stands among the keys
abbrev pub place : Language → ℕ
place french = 0
place german = 1
place english = 2

-- the guess has the most hits and no earlier language has as many; without a hit it is English
pub record IsGuess (scores : Language → ℕ) (guess : Language) : Type 0 where
  pub most : (lang : Language) → scores lang ≤ scores guess
  pub earliest :
      (lang : Language) → 1 ≤ scores guess → scores lang ≡ scores guess → place guess ≤ place lang
  pub otherwise : scores guess ≡ 0 → guess ≡ english

-- which language `max` takes, and why
abbrev IsBest : (Language → ℕ) → Language → Type 0
IsBest scores french = (scores german ≤ scores french) × (scores english ≤ scores french)
IsBest scores german = (suc (scores french) ≤ scores german) × (scores english ≤ scores german)
IsBest scores english =
    (suc (scores french) ≤ scores english) × (suc (scores german) ≤ scores english)

best_of-IsBest : (scores : Language → ℕ) → IsBest scores (best_of scores)
best_of-IsBest scores = elim (Bool-cases (ltb (scores french) (scores german))) [
  | inl a ↦ elim (Bool-cases (ltb (scores german) (scores english))) [
    | inl b ↦ rw (a, b) (ground arith, ground arith)
    | inr b ↦ rw (a, b) (ground arith, ground arith)
  ]
  | inr a ↦ elim (Bool-cases (ltb (scores french) (scores english))) [
    | inl b ↦ rw (a, b) (ground arith, ground arith)
    | inr b ↦ rw (a, b) (ground arith, ground arith)
  ]
]

IsBest-IsGuess :
    (scores : Language → ℕ) (best : Language)
    → IsBest scores best
    → 1 ≤ scores best
    → IsGuess scores best
IsBest-IsGuess scores french (g, e) h = record {
  most = elim [ french ↦ omega arith | german ↦ g | english ↦ e ];
  earliest = elim [
    | french ↦ λ i q. omega arith
    | german ↦ λ i q. omega arith
    | english ↦ λ i q. omega arith
  ];
  otherwise = λ z. absurd (omega arith);
}
IsBest-IsGuess scores german (f, e) h = record {
  most = elim [ french ↦ omega arith | german ↦ omega arith | english ↦ e ];
  earliest = elim [
    | french ↦ λ i q. omega arith
    | german ↦ λ i q. omega arith
    | english ↦ λ i q. omega arith
  ];
  otherwise = λ z. absurd (omega arith);
}
IsBest-IsGuess scores english (f, g) h = record {
  most = elim [ french ↦ omega arith | german ↦ omega arith | english ↦ omega arith ];
  earliest = elim [
    | french ↦ λ i q. omega arith
    | german ↦ λ i q. omega arith
    | english ↦ λ i q. omega arith
  ];
  otherwise = λ z. absurd (omega arith);
}

no_hit_lem :
    (scores : Language → ℕ) (best : Language)
    → IsBest scores best
    → scores best ≡ 0
    → (lang : Language) → scores lang ≡ 0
no_hit_lem scores french (g, e) z french = z
no_hit_lem scores french (g, e) z german = omega arith
no_hit_lem scores french (g, e) z english = omega arith
no_hit_lem scores german (f, e) z lang = absurd (omega arith)
no_hit_lem scores english (f, g) z lang = absurd (omega arith)

no_hit-IsGuess :
    (scores : Language → ℕ) → ((lang : Language) → scores lang ≡ 0) → IsGuess scores english
no_hit-IsGuess scores zero_each = record {
  most = λ lang. omega (arith, zero_each lang);
  earliest = λ lang i q. absurd (omega (arith, zero_each english));
  otherwise = λ z. refl;
}

-- The guessed language has at least as many stopwords in the text as each other language; of
-- languages with as many, at least one, it is the first; and if no language has any, it is
-- English.
pub guess_language-IsGuess :
    (u : UnicodeData) (text : Text) → IsGuess (score u text) (guess_language u text)
unfolding guess_language
guess_language-IsGuess u text =
    let scores = score u text in
    let best = best_of-IsBest scores in
    elim (Bool-cases (ltb 0 (scores (best_of scores)))) [
      | inl e ↦ rw e (IsBest-IsGuess scores (best_of scores) best (ground arith))
      | inr e ↦
          rw e (no_hit-IsGuess scores (no_hit_lem scores (best_of scores) best (ground arith)))
    ]
