-- ===== src/Providers/Collected.antt =====
-- What `collect` (backend/src/sovereign_rag/llm/base.py) makes of an answer of Ollama.
use sovereign_rag.Base.{
  ap, ap₂, ◌≡◌, refl, sym, ◌∙◌, Option, none, some, List, [], ◌∷◌, ◌++◌, true, false, is_empty,
  append-nil, append_assoc,
}
use sovereign_rag.Text.{Text, codes, strip}
use sovereign_rag.Effects.{Outcome, ok, raised}
use sovereign_rag.Json.{Json, null, boolean, integer, number, array, string, object, Fields, get}
use sovereign_rag.Providers.{
  truthy, put_before, join_parts, keep_value, collect_raw_from, collect_raw,
}
use sovereign_rag.Providers.Ollama.{
  LineStream, line, OllamaLlm, Reading, skip, last, piece, given, read_content, read_message,
  read_data, read_json, read_line, read_lines,
}

-- `text` is a line with this object, which reports no error
pub record IsLine {W : Type 0} (llm : OllamaLlm W) (text : Text) (fields : Fields) : Type 0 where
  pub filled : is_empty (strip text) ≡ false
  pub parsed : llm.json.loads text ≡ some (object fields)
  pub healthy : get (codes "error") fields ≡ none

-- a line that carries a piece of the answer
pub record SaysPiece {W : Type 0} (llm : OllamaLlm W) (text content : Text) : Type 0 where
  pub fields : Fields
  pub message : Fields
  pub is_line : IsLine llm text fields
  pub going_on : truthy llm.nonzero (get (codes "done") fields) ≡ false
  pub has_message : get (codes "message") fields ≡ some (object message)
  pub has_content : get (codes "content") message ≡ some (string content)

-- the line that ends it, with its counts
pub record SaysDone {W : Type 0} (llm : OllamaLlm W) (text : Text) (prompt completion : Option Json)
    : Type 0 where
  pub fields : Fields
  pub is_line : IsLine llm text fields
  pub is_done : truthy llm.nonzero (get (codes "done") fields) ≡ true
  pub has_prompt : given (get (codes "prompt_eval_count") fields) ≡ prompt
  pub has_completion : given (get (codes "eval_count") fields) ≡ completion

module _ {W : Type 0} (llm : OllamaLlm W) where
  abbrev pub SaysEach : List Text → List Text → Type 0
  SaysEach [] [] = Unit
  SaysEach (l ∷ lines) (t ∷ contents) = SaysPiece llm l t × SaysEach lines contents
  SaysEach lines contents = ⊥

abbrev pub then_lines : List Text → LineStream → LineStream
then_lines [] more = more
then_lines (l ∷ lines) more = line l (then_lines lines more)

abbrev pub concat : List Text → Text
concat [] = []
concat (t ∷ contents) = t ++ concat contents

-- one more text is joined behind the others
join_parts-append :
    (parts : List Json) (t s : Text)
    → join_parts parts ≡ ok t
    → join_parts (parts ++ string s ∷ []) ≡ ok (t ++ s)
unfolding join_parts
join_parts-append [] t s e =
    let same : [] ≡ t = cc e in ap ok (append-nil s ∙ ap (λ x. x ++ s) same)
join_parts-append (string u ∷ parts) t s e =
    go (join_parts parts) refl e (λ x. join_parts-append parts x s)
  where
    go :
        (r : Outcome Text)
        → join_parts parts ≡ r
        → put_before u r ≡ ok t
        → ((x : Text) → join_parts parts ≡ ok x → join_parts (parts ++ string s ∷ []) ≡ ok (x ++ s))
        → put_before u (join_parts (parts ++ string s ∷ [])) ≡ ok (t ++ s)
    go (raised f) q k more = absurd (cc k)
    go (ok x) q k more =
        let same : u ++ x ≡ t = cc k in
        ap (put_before u) (more x q) ∙ ap ok (sym (append_assoc u x s) ∙ ap (λ y. y ++ s) same)
join_parts-append (null ∷ parts) t s e = absurd (cc e)
join_parts-append (boolean b ∷ parts) t s e = absurd (cc e)
join_parts-append (integer n ∷ parts) t s e = absurd (cc e)
join_parts-append (number l ∷ parts) t s e = absurd (cc e)
join_parts-append (array xs ∷ parts) t s e = absurd (cc e)
join_parts-append (object fs ∷ parts) t s e = absurd (cc e)

module _ {W : Type 0} (llm : OllamaLlm W) where
  read_line_lem :
      (text : Text) (fields : Fields)
      → IsLine llm text fields
      → read_line llm text ≡ read_data llm none fields
  unfolding read_line read_json
  read_line_lem text fields h = rw (h.filled, h.parsed, h.healthy) refl

  said : Text → Reading
  said [] = skip
  said (c ∷ t) = piece (string (c ∷ t))

  piece_lem : (text content : Text) → SaysPiece llm text content → read_line llm text ≡ said content
  unfolding read_data read_message read_content truthy said
  piece_lem text [] h =
      read_line_lem text h.fields h.is_line ∙ rw (h.going_on, h.has_message, h.has_content) refl
  piece_lem text (c ∷ t) h =
      read_line_lem text h.fields h.is_line ∙ rw (h.going_on, h.has_message, h.has_content) refl

  done_lem :
      (text : Text) (prompt completion : Option Json)
      → SaysDone llm text prompt completion
      → read_line llm text
        ≡ last
            (record { delta = string []; prompt_tokens = prompt; completion_tokens = completion })
  unfolding read_data
  done_lem text prompt completion h =
      read_line_lem text h.fields h.is_line ∙ rw (h.is_done, h.has_prompt, h.has_completion) refl

  collect_each :
      (lines contents : List Text) (text : Text) (prompt completion : Option Json)
      (more : LineStream)
      → SaysEach llm lines contents
      → SaysDone llm text prompt completion
      → (parts : List Json) (t : Text) → join_parts parts ≡ ok t
      → collect_raw_from parts none none (read_lines llm (then_lines lines (line text more)))
        ≡ ok (record {
          text = t ++ concat contents;
          prompt_tokens = keep_value none prompt;
          completion_tokens = keep_value none completion;
        })
  unfolding read_lines collect_raw_from said
  collect_each [] [] text prompt completion more h d parts t j =
      rw (collect_raw_from, done_lem text prompt completion d, join_parts-append parts t [] j) refl
  collect_each [] (c ∷ contents) text prompt completion more h d parts t j = absurd h
  collect_each (l ∷ lines) [] text prompt completion more h d parts t j = absurd h
  collect_each (l ∷ lines) ([] ∷ contents) text prompt completion more (h, hs) d parts t j =
      rw (collect_raw_from, piece_lem l [] h)
        (collect_each lines contents text prompt completion more hs d parts t j)
  collect_each (l ∷ lines) ((c ∷ s) ∷ contents) text prompt completion more (h, hs) d parts t j =
      rw (collect_raw_from, piece_lem l (c ∷ s) h, sym (append_assoc t (c ∷ s) (concat contents)))
        (collect_each lines contents text prompt completion more hs d (parts ++ string (c ∷ s) ∷ [])
          (t ++ c ∷ s) (join_parts-append parts t (c ∷ s) j))

keep_none : (v : Option Json) → keep_value none v ≡ v
keep_none none = refl
keep_none (some v) = refl

-- Let Ollama send lines whose objects report no error: any number that carry a content and are
-- not done, and then one that is done. Collecting returns the contents in their order and the
-- counts of the last line, whatever the server sends behind it.
pub collect-read_lines :
    {W : Type 0} (llm : OllamaLlm W) (lines contents : List Text) (text : Text)
    (prompt completion : Option Json) (more : LineStream)
    → SaysEach llm lines contents
    → SaysDone llm text prompt completion
    → collect_raw (read_lines llm (then_lines lines (line text more)))
      ≡ ok (record {
        text = concat contents;
        prompt_tokens = prompt;
        completion_tokens = completion;
      })
unfolding collect_raw join_parts
collect-read_lines llm lines contents text prompt completion more h d =
    collect_each llm lines contents text prompt completion more h d [] [] refl
    ∙ ap₂ (λ p q. ok (record { text = concat contents; prompt_tokens = p; completion_tokens = q }))
        (keep_none prompt) (keep_none completion)
