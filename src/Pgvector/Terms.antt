-- ===== src/Pgvector/Terms.antt =====
-- The informative terms of a question, and its two text queries (the CTEs tokens, terms and tsq).
use sovereign_rag.Base.{
  ℕ, Option, none, some, List, [], ◌∷◌, ◌++◌, Bool, false, not, ◌&&◌, leb, ltb, if◌then◌else◌,
  length, take, select, exists_in, is_empty, min, max,
}
use sovereign_rag.Text.{Text, codes, join, same_text}
use sovereign_rag.Tables.{LexemeRow}
use sovereign_rag.Pgvector.{Config, french, german, english, Postgres}

abbrev pub query_stoplist : List Text
query_stoplist =
    codes "quel"
    ∷ codes "quelle"
    ∷ codes "quels"
    ∷ codes "quelles"
    ∷ codes "quoi"
    ∷ codes "comment"
    ∷ codes "pourquoi"
    ∷ codes "combien"
    ∷ codes "doit"
    ∷ codes "doivent"
    ∷ codes "peut"
    ∷ codes "peuvent"
    ∷ codes "faut"
    ∷ codes "faire"
    ∷ codes "dit"
    ∷ codes "selon"
    ∷ codes "concernant"
    ∷ codes "welche"
    ∷ codes "welcher"
    ∷ codes "welches"
    ∷ codes "wie"
    ∷ codes "warum"
    ∷ codes "wieso"
    ∷ codes "wann"
    ∷ codes "muss"
    ∷ codes "müssen"
    ∷ codes "kann"
    ∷ codes "können"
    ∷ codes "soll"
    ∷ codes "sollen"
    ∷ codes "gibt"
    ∷ codes "laut"
    ∷ codes "gemäß"
    ∷ codes "gemäss"
    ∷ codes "what"
    ∷ codes "which"
    ∷ codes "how"
    ∷ codes "why"
    ∷ codes "when"
    ∷ codes "does"
    ∷ codes "must"
    ∷ codes "shall"
    ∷ codes "should"
    ∷ codes "can"
    ∷ codes "could"
    ∷ codes "according"
    ∷ []

-- regexp_split_to_table at runs of other characters; `word` is the run being read
unfoldable pub split_words : (ℕ → Bool) → Text → Text → List Text
split_words alnum word [] = word ∷ []
split_words alnum word (c ∷ s) =
    let longer = split_words alnum (word ++ c ∷ []) s in
    let next = split_words alnum [] s in if alnum c then longer else word ∷ next

-- the least and the greatest of a column; NULL over no rows
unfoldable pub min_ndoc : List LexemeRow → Option ℕ
min_ndoc [] = none
min_ndoc (r ∷ rows) = elim (min_ndoc rows) [ none ↦ some r.ndoc | some n ↦ some (min r.ndoc n) ]

unfoldable pub max_total : List LexemeRow → Option ℕ
max_total [] = none
max_total (r ∷ rows) = elim (max_total rows) [ none ↦ some r.total | some n ↦ some (max r.total n) ]

module _ {Vector Query Rank Score : Type 0} (pg : Postgres Vector Query Rank Score) where
  -- `tokens`
  unfoldable pub tokens : Text → List Text
  unfolding split_words
  tokens q = take 64 (
      pg.distinct (
        select (λ tok. leb 2 (length tok) && not (exists_in (same_text tok) query_stoplist))
          (split_words pg.is_alnum [] (pg.lower (take 8000 q)))))

  abbrev pub all_lexemes : Text → List Text
  all_lexemes tok = pg.lexemes french tok ++ (pg.lexemes german tok ++ pg.lexemes english tok)

  -- greatest(2, …) does without a NULL
  abbrev pub ceiling : List LexemeRow → ℕ
  ceiling df = elim (max_total df) [ none ↦ 2 | some n ↦ max 2 (pg.share n) ]

  -- every known lexeme of the token is too common; a NULL on the left is not above
  unfoldable pub is_common : List LexemeRow → Text → Bool
  unfolding min_ndoc max_total
  is_common df tok =
      elim (min_ndoc (select (λ r. exists_in (same_text r.word) (all_lexemes tok)) df)) [
        | none ↦ false
        | some n ↦ ltb (ceiling df) n
      ]

  -- `terms`
  unfoldable pub terms : List LexemeRow → Text → List Text
  unfolding tokens is_common
  terms df q =
      select
        (λ tok.
          not (is_empty (pg.lexemes french tok))
          && not (is_empty (pg.lexemes german tok))
          && not (is_empty (pg.lexemes english tok))
          && not (is_common df tok))
        (tokens q)

  abbrev pub in_each : (Config → Query) → Query
  in_each query = pg.either (pg.either (query french) (query german)) (query english)

  pub record TsQuery : Type 0 where
    pub strict : Query
    pub relaxed : Query

  -- `tsq`: no row without a term
  unfoldable pub tsq : List Text → Option TsQuery
  tsq [] = none
  tsq (t ∷ ts) = some (record {
    strict = in_each (λ config. pg.plainto_tsquery config (join (codes " ") (t ∷ ts)));
    relaxed = in_each (λ config. pg.websearch_to_tsquery config (join (codes " or ") (t ∷ ts)));
  })
