-- ===== src/Chat/Transcript.antt =====
-- What the events of a turn say, read in their order: how far the turn is, the text told so far
-- and the sources listed (`ChatEvent` of backend/src/sovereign_rag/chat/service.py, and the order
-- start, step*, sources, delta*, done or error that `stream_reply` promises).
use mathlib.Core.List.{foldl}
use sovereign_rag.Base.{Option, none, some, List, [], ◌++◌}
use sovereign_rag.Text.{Text}
use sovereign_rag.Chat.Prompts.{SourceOut}
use sovereign_rag.Chat.Session.{ChatEvent, start, step, sources, delta, done, error}

pub data Phase : Type 0 where
  -- nothing yet, started, sources listed, done, failed
  opening running answering complete broken : Phase

module _ {Score : Type 0} where
  -- the phase that an event leads to; `none`: it is out of order
  abbrev pub next_phase : Phase → ChatEvent Score → Option Phase
  next_phase opening (start c) = some running
  next_phase opening (error c d) = some broken
  next_phase running (step a d) = some running
  next_phase running (sources xs) = some answering
  next_phase running (error c d) = some broken
  next_phase answering (delta t) = some answering
  next_phase answering (done i p c r g) = some complete
  next_phase answering (error c d) = some broken
  next_phase _ _ = none

  abbrev pub hear_phase : Option Phase → ChatEvent Score → Option Phase
  hear_phase none e = none
  hear_phase (some p) e = next_phase p e

  abbrev pub hear_text : Text → ChatEvent Score → Text
  hear_text t (delta s) = t ++ s
  hear_text t _ = t

  abbrev pub hear_sources :
      Option (List (SourceOut Score)) → ChatEvent Score → Option (List (SourceOut Score))
  hear_sources o (sources xs) = some xs
  hear_sources o _ = o

  abbrev pub phase_of : List (ChatEvent Score) → Option Phase
  phase_of sent = foldl hear_phase (some opening) sent

  abbrev pub text_of : List (ChatEvent Score) → Text
  text_of sent = foldl hear_text [] sent

  abbrev pub sources_of : List (ChatEvent Score) → Option (List (SourceOut Score))
  sources_of sent = foldl hear_sources none sent
