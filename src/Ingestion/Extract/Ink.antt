-- ===== src/Ingestion/Extract/Ink.antt =====
-- Nothing but headings and white space is lost of a markdown document (`_extract_md` of
-- backend/src/sovereign_rag/ingestion/extract.py).
use sovereign_rag.Base.{
  ◌==◌, ℕ, ◌≤◌, ◌<◌, ◌≡◌, refl, sym, ap, ◌∙◌, inl, inr, none, some, Option-cases, List, [], ◌∷◌,
  ◌++◌, append_assoc, append-nil, map, arith, true, ◌&&◌, Bool-cases, if◌then◌else◌, is_empty,
  length, Every,
}
use sovereign_rag.Text.{Text, newline, join, strip, is_space}
use sovereign_rag.Ingestion.Chunking.Ink.{
  ink, flat, ink-append, flat-append, ink-strip, ink-newline, ink_cons, flat-cons_head,
}
use sovereign_rag.Ingestion.Extract.{Fragment}
use sovereign_rag.Ingestion.Extract.Headings.{
  is_break, starts_with_newline, splitlines, md_heading, push_heading, section_of,
}
use sovereign_rag.Ingestion.Extract.Formats.{flush_block, md_from}

-- the lines that are no headings, and the titles of those that are
abbrev pub body_of : List Text → List Text
body_of [] = []
body_of (line ∷ lines) = elim (md_heading line) [
  | some h ↦ body_of lines
  | none ↦ line ∷ body_of lines
]

abbrev pub titles_of : List Text → List Text
titles_of [] = []
titles_of (line ∷ lines) = elim (md_heading line) [
  | some h ↦ h.1 ∷ titles_of lines
  | none ↦ titles_of lines
]

abbrev pub texts_of : List Fragment → List Text
texts_of fragments = map (λ f. f.text) fragments

-- the section is a path of at most six headings, and the text is not empty
pub record IsUnder (P : Text → Type 0) (f : Fragment) : Type 0 where
  pub filled : 0 < length f.text
  pub path :
      (stack : List Text) × (f.section ≡ section_of stack) × (length stack ≤ 6) × Every P stack

ink-space : (c : ℕ) (s : Text) → is_space c ≡ true → ink (c ∷ s) ≡ ink s
unfolding ink
ink-space c s e = rw e refl

is_break-is_space : (c : ℕ) → is_break c ≡ true → is_space c ≡ true
unfolding is_break is_space
is_break-is_space c e = ground arith

return_is_space : (c : ℕ) (s : Text) → (c == 13 && starts_with_newline s) ≡ true → is_space c ≡ true
unfolding is_space
return_is_space c s e = ground arith

-- the lines hold the characters of the text that are no white space
pub splitlines-lossless : (s : Text) → ink (flat (splitlines s)) ≡ ink s
unfolding splitlines
splitlines-lossless [] = refl
splitlines-lossless (c ∷ s) = elim (Bool-cases (c == 13 && starts_with_newline s)) [
  | inl e ↦ rw e (splitlines-lossless s ∙ sym (ink-space c s (return_is_space c s e)))
  | inr e ↦ elim (Bool-cases (is_break c)) [
    | inl b ↦ rw (e, b) (splitlines-lossless s ∙ sym (ink-space c s (is_break-is_space c b)))
    | inr b ↦
        rw (e, b)
          (ap ink (flat-cons_head c (splitlines s)) ∙ ink_cons c _ s (splitlines-lossless s))
  ]
]

ink-join : (parts : List Text) → ink (join (newline ∷ []) parts) ≡ ink (flat parts)
unfolding join
ink-join [] = refl
ink-join (s ∷ []) = sym (ap ink (append-nil s))
ink-join (s ∷ t ∷ parts) =
    ink-append s _
    ∙ ap (λ x. ink s ++ x) (ink-newline (join (newline ∷ []) (t ∷ parts)) ∙ ink-join (t ∷ parts))
    ∙ sym (ink-append s (flat (t ∷ parts)))

content_lem :
    (stack : List Text) (content : Text)
    → flat (
        texts_of (
          if is_empty content
          then []
          else record { text = content; section = section_of stack; page = none } ∷ []))
      ≡ content
content_lem stack [] = refl
content_lem stack (c ∷ s) = append-nil (c ∷ s)

flush_block-lossless :
    (stack block : List Text) → ink (flat (texts_of (flush_block stack block))) ≡ ink (flat block)
unfolding flush_block
flush_block-lossless stack block =
    ap ink (content_lem stack (strip (join (newline ∷ []) block)))
    ∙ ink-strip (join (newline ∷ []) block)
    ∙ ink-join block

texts_of-append : (xs ys : List Fragment) → texts_of (xs ++ ys) ≡ texts_of xs ++ texts_of ys
texts_of-append [] ys = refl
texts_of-append (x ∷ xs) ys = ap (λ t. x.text ∷ t) (texts_of-append xs ys)

ink-texts_of-append :
    (xs ys : List Fragment)
    → ink (flat (texts_of (xs ++ ys))) ≡ ink (flat (texts_of xs)) ++ ink (flat (texts_of ys))
ink-texts_of-append xs ys =
    ap (λ ts. ink (flat ts)) (texts_of-append xs ys)
    ∙ ap ink (flat-append (texts_of xs) (texts_of ys))
    ∙ ink-append (flat (texts_of xs)) (flat (texts_of ys))

ink-flat-append : (xs ys : List Text) → ink (flat (xs ++ ys)) ≡ ink (flat xs) ++ ink (flat ys)
ink-flat-append xs ys = ap ink (flat-append xs ys) ∙ ink-append (flat xs) (flat ys)

pub md_from-lossless :
    (stack block lines : List Text)
    → ink (flat (texts_of (md_from stack block lines)))
      ≡ ink (flat block) ++ ink (flat (body_of lines))
unfolding md_from ink
md_from-lossless stack block [] =
    flush_block-lossless stack block ∙ sym (append-nil (ink (flat block)))
md_from-lossless stack block (line ∷ lines) = elim (Option-cases (md_heading line)) [
  | inl e ↦
      rw (e, ink, md_from)
        (md_from-lossless stack (block ++ line ∷ []) lines
          ∙ ap (λ x. x ++ ink (flat (body_of lines)))
              (ink-flat-append block (line ∷ [])
                ∙ ap (λ x. ink (flat block) ++ ink x) (append-nil line))
          ∙ append_assoc (ink (flat block)) (ink line) (ink (flat (body_of lines)))
          ∙ ap (λ x. ink (flat block) ++ x) (sym (ink-append line (flat (body_of lines)))))
  | inr (h, e) ↦
      rw (e, ink, md_from)
        (ink-texts_of-append (flush_block stack block)
            (md_from (push_heading h.0 h.1 stack) [] lines)
          ∙ ap (λ x. x ++ ink (flat (texts_of (md_from (push_heading h.0 h.1 stack) [] lines))))
              (flush_block-lossless stack block)
          ∙ ap (λ x. ink (flat block) ++ x)
              (md_from-lossless (push_heading h.0 h.1 stack) [] lines))
]
