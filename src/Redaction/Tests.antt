-- ===== src/Redaction/Tests.antt =====
-- The redactors on short texts, over ASCII.
use sovereign_rag.Base.{◌≡◌, refl, [], ◌∷◌, ◌&&◌, ◌||◌, leb, map}
use sovereign_rag.Text.{Text, codes, is_space, same_text}
use sovereign_rag.Redaction.{is_space, sub, UnicodeData, apply_rules, redact_patterns}
use sovereign_rag.Base.{sort_by, insert_by, ◌+◌, if◌then◌else◌}
use sovereign_rag.Redaction.Patterns.{
  concat_map, many_from, up_to, one_from, matches, sub_from, sub,
}
use sovereign_rag.Redaction.Language.{
  french, german, english, split_from, stopwords, in_word, words_from, score, guess_language,
  IsGuess, guess_language-IsGuess,
}
use sovereign_rag.Redaction.Names.{Analyzer, splice, mask_names, last_first, redact_names}

abbrev ascii : UnicodeData
ascii = record {
  is_alnum = λ c. (leb 48 c && leb c 57) || (leb 65 c && leb c 90) || (leb 97 c && leb c 122);
  is_decimal = λ c. leb 48 c && leb c 57;
  casefold = map (λ c. if leb 65 c && leb c 90 then c + 32 else c);
}

abbrev mail : Text
mail = codes "To a@b.ch!"

redacted :
    (redact_patterns ascii mail ≡ codes "To [email redacted]!")
    × (redact_patterns ascii (codes "nr 756.1234.5678.97.") ≡ codes "nr [avs redacted].")
    × (redact_patterns ascii (codes "022 345 67 89") ≡ codes "[phone redacted]")
    × (redact_patterns ascii (codes "x022 345 67 89") ≡ codes "x022 345 67 89")
    × (redact_patterns ascii (codes "CH93 0076 2011 62") ≡ codes "[iban redacted]")
unfolding redact_patterns apply_rules sub sub_from matches one_from many_from up_to concat_map
    is_space
redacted = (refl, refl, refl, refl, refl)

guesses :
    (guess_language ascii (codes "Der Hund und die Katze") ≡ german)
    × (guess_language ascii (codes "un des les") ≡ french)
    × (guess_language ascii (codes "42") ≡ english)
unfolding guess_language score words_from stopwords split_from in_word same_text
guesses = (refl, refl, refl)

abbrev sentence : Text
sentence = codes "Der Hund von Anna"

guess_language-IsGuess_example : IsGuess (score ascii sentence) (guess_language ascii sentence)
guess_language-IsGuess_example = guess_language-IsGuess ascii sentence

-- a person at the start, another at the end, and a place that overlaps the first
abbrev spotted : Analyzer
spotted text lang =
    record { start = 0; end = 4; entity_type = codes "PERSON" }
    ∷ record { start = 19; end = 22; entity_type = codes "PER" }
    ∷ record { start = 2; end = 13; entity_type = codes "LOCATION" }
    ∷ []

abbrev visit : Text
visit = codes "Anna saw Bern with Max"

named : redact_names ascii spotted visit ≡ codes "[name redacted] saw Bern with [name redacted]"
unfolding redact_names sort_by insert_by last_first mask_names same_text guess_language splice
    redact_patterns apply_rules sub sub_from matches one_from many_from up_to concat_map is_space
named = refl
