-- ===== src/Chat/Order.antt =====
-- The order of the events of a turn, and how they agree with the variables that are persisted:
-- the `try` of `stream_reply` in both modes (backend/src/sovereign_rag/chat/service.py).
use mathlib.Core.List.{foldl-append}
use sovereign_rag.Base.{
  ◌≡◌, sym, ap, ◌∙◌, subst, ◌⊎◌, Option, none, some, List, [], ◌∷◌, ◌++◌, true, false,
}
use sovereign_rag.Effects.{Fault, cancelled}
use sovereign_rag.Store.{Uuid}
use sovereign_rag.Chat.Prompts.{SourceOut}
use sovereign_rag.Chat.Session.{ChatEvent, Turn}
use sovereign_rag.Chat.Body.{done_event}
use sovereign_rag.Chat.Transcript.{
  Phase, opening, running, answering, complete, next_phase, hear_phase, hear_text, hear_sources,
  phase_of, text_of, sources_of,
}

module _ {Score : Type 0} where
  -- the sources that were listed, in a phase that is not over
  abbrev pub Shown : Phase → Option (List (SourceOut Score)) → List (SourceOut Score) → Type 0
  Shown opening o xs = o ≡ none
  Shown running o xs = o ≡ none
  Shown answering o xs = o ≡ some xs
  Shown _ o xs = ⊥

-- between two events of a turn that is not over
pub record IsOpen {Time Score : Type 0} (p : Phase) (sent : List (ChatEvent Score))
    (t : Turn Time Score) : Type 0 where
  pub in_phase : phase_of sent ≡ some p
  pub told : text_of sent ≡ t.accumulated
  pub shown : Shown p (sources_of sent) t.recorded_sources
  pub unfinished : t.is_finished ≡ false
  pub unfailed : t.error_code ≡ none

-- after `done`
pub record IsComplete {Time Score : Type 0} (message_id : Uuid) (sent : List (ChatEvent Score))
    (t : Turn Time Score) : Type 0 where
  pub in_phase : phase_of sent ≡ some complete
  pub told : text_of sent ≡ t.accumulated
  pub shown : sources_of sent ≡ some t.recorded_sources
  pub over : t.is_finished ≡ true
  pub unfailed : t.error_code ≡ none
  pub closing : (before : List (ChatEvent Score)) × (sent ≡ before ++ done_event message_id t ∷ [])

-- what a fault of the `try` leaves: after `done` only a cancellation comes
abbrev pub Interrupted :
    {Time Score : Type 0} → Uuid → Fault → List (ChatEvent Score) → Turn Time Score → Type 0
Interrupted message_id e sent t =
    ((p : Phase) × IsOpen p sent t) ⊎ ((e ≡ cancelled) × IsComplete message_id sent t)

module _ {Score : Type 0} (sent : List (ChatEvent Score)) (event : ChatEvent Score) where
  pub phase_of-append : phase_of (sent ++ event ∷ []) ≡ hear_phase (phase_of sent) event
  phase_of-append = foldl-append hear_phase (some opening) sent (event ∷ [])

  pub text_of-append : text_of (sent ++ event ∷ []) ≡ hear_text (text_of sent) event
  text_of-append = foldl-append hear_text [] sent (event ∷ [])

  pub sources_of-append : sources_of (sent ++ event ∷ []) ≡ hear_sources (sources_of sent) event
  sources_of-append = foldl-append hear_sources none sent (event ∷ [])

module _ {Time Score : Type 0} where
  -- An event in its order, told by variables `t'` that are ahead of those it was claimed of.
  pub IsOpen-append :
      (p q : Phase) (event : ChatEvent Score) (sent : List (ChatEvent Score))
      (t t' : Turn Time Score)
      → IsOpen p sent t
      → next_phase p event ≡ some q
      → hear_text t.accumulated event ≡ t'.accumulated
      → Shown q (hear_sources (sources_of sent) event) t'.recorded_sources
      → t'.is_finished ≡ false
      → t'.error_code ≡ none
      → IsOpen q (sent ++ event ∷ []) t'
  IsOpen-append p q event sent t t' o n text shown f e = record {
    in_phase = phase_of-append sent event ∙ ap (λ x. hear_phase x event) o.in_phase ∙ n;
    told = text_of-append sent event ∙ ap (λ x. hear_text x event) o.told ∙ text;
    shown = subst (λ x. Shown q x t'.recorded_sources) (sym (sources_of-append sent event)) shown;
    unfinished = f;
    unfailed = e;
  }
