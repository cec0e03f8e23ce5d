-- ===== src/Chat/Verbatim.antt =====
-- The verified draft is told as it stands, in slices (the `prewritten` of `stream_reply` in
-- backend/src/sovereign_rag/chat/service.py).
use sovereign_rag.Base.{
  refl, ◌≡◌, sym, ap, ◌∙◌, subst, some, List, [], ◌∷◌, ◌++◌, append_assoc, append-nil, arith,
  length,
}
use sovereign_rag.Text.{Text}
use sovereign_rag.Effects.{Fault, cancelled}
use sovereign_rag.Llm.{ChatMessage}
use sovereign_rag.Ingestion.Chunking.Units.{cuts}
use sovereign_rag.Ingestion.Chunking.Ink.{flat, flat-cuts}
use sovereign_rag.Chat.Transcript.{text_of}
use sovereign_rag.Chat.Order.{text_of-append}
use sovereign_rag.Chat.Session.{ChatEvent, delta, ChatDeps}
use sovereign_rag.Chat.Body.{tell, tell_each, answer_deep}
use sovereign_rag.Chat.Triple.{
  Claim, Triple, Triple-pure, Triple-bind, Triple-assign, Triple-yield_event,
}

told_lem :
    {Score : Type 0} (before piece : Text) (sent : List (ChatEvent Score))
    → text_of sent ≡ before
    → text_of (sent ++ delta piece ∷ []) ≡ before ++ piece
told_lem before piece sent k = text_of-append sent (delta piece) ∙ ap (λ a. a ++ piece) k

module _ {Time Score : Type 0} where
  -- this text was accumulated, and the events tell it
  abbrev pub Has : Text → Claim Time Score
  Has text sent t = (t.accumulated ≡ text) × (text_of sent ≡ text)

  -- the client left, and an initial part of it was accumulated and told
  abbrev pub HasPart : Text → Fault → Claim Time Score
  HasPart text e sent t =
      (e ≡ cancelled)
      × (text_of sent ≡ t.accumulated)
      × ((rest : Text) × (t.accumulated ++ rest ≡ text))

  -- a piece that is accumulated and not told yet
  abbrev Ahead : Text → Text → Claim Time Score
  Ahead before piece sent t = (t.accumulated ≡ before ++ piece) × (text_of sent ≡ before)

module _ {W Time Vector Score : Type 0} (deps : ChatDeps W Time Vector Score) where
  tell-Has :
      (before piece more : Text)
      → Triple
          (Has before)
          (λ _. Has (before ++ piece))
          (HasPart (before ++ (piece ++ more)))
          (tell deps piece)
  unfolding tell
  tell-Has before piece more =
      Triple-bind {Q = λ _. Ahead before piece} _ _
        (Triple-assign _ (λ sent t (h, k). (ap (λ a. a ++ piece) h, k)))
        (λ _.
          Triple-yield_event deps (delta piece) (λ sent t (h, k). (h, told_lem before piece sent k))
            (λ sent t (h, k). (
              refl,
              told_lem before piece sent k ∙ sym h,
              (more, ap (λ a. a ++ more) h ∙ append_assoc before piece more),
            )))

  tell_each-Has :
      (before : Text) (pieces : List Text)
      → Triple
          (Has before)
          (λ _. Has (before ++ flat pieces))
          (HasPart (before ++ flat pieces))
          (tell_each deps pieces)
  unfolding tell_each
  tell_each-Has before [] =
      Triple-pure tt (λ sent t (h, k). (h ∙ sym (append-nil before), k ∙ sym (append-nil before)))
  tell_each-Has before (piece ∷ pieces) = Triple-bind _ _ (tell-Has before piece (flat pieces)) λ _.
      subst
        (λ whole.
          Triple (Has (before ++ piece)) (λ _. Has whole) (HasPart whole) (tell_each deps pieces))
        (append_assoc before piece (flat pieces)) (tell_each-Has (before ++ piece) pieces)

  -- Let the deep graph have delivered a draft, and let the delta events so far tell what was
  -- accumulated. If the answer ends, exactly the draft was appended, both to the text of the
  -- delta events and to the accumulated text. A fault is only the cancellation of a client that
  -- left: then the delta events tell exactly the accumulated text, which is an initial part of
  -- what was there with the draft behind it.
  pub answer_deep-Has :
      (history : List ChatMessage) (message before draft : Text)
      → Triple
          (Has before)
          (λ _. Has (before ++ draft))
          (HasPart (before ++ draft))
          (answer_deep deps history message (some draft))
  unfolding answer_deep
  answer_deep-Has history message before draft =
      subst
        (λ s.
          Triple (Has before) (λ _. Has (before ++ s)) (HasPart (before ++ s))
            (tell_each deps (cuts (length draft) 80 draft)))
        (flat-cuts (length draft) 79 draft (omega arith))
        (tell_each-Has before (cuts (length draft) 80 draft))
