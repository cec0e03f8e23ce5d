-- ===== src/Chat/Records.antt =====
-- What the assistant's row says of a turn, beside the events and what comes out of `stream_reply`
-- (backend/src/sovereign_rag/chat/service.py).
use sovereign_rag.Base.{ℕ, ◌≡◌, refl, ◌⊎◌, inl, inr, Option, none, some, List, [], ◌∷◌, ◌++◌}
use sovereign_rag.Text.{Text, codes}
use sovereign_rag.Effects.{cancelled, Outcome, raised}
use sovereign_rag.Store.{Uuid}
use sovereign_rag.Chat.Session.{ChatEvent, done, error, ChatDeps, Turn}
use sovereign_rag.Chat.Database.{AssistantRow}
use sovereign_rag.Chat.Transcript.{
  Phase, opening, running, answering, complete, broken, phase_of, text_of,
}
use sovereign_rag.Chat.Handlers.{Listed, IsErrorCode, Leaves, Settled}
use sovereign_rag.Chat.Service.{row_of}

-- the row's verdict on the turn, beside its last event and what comes out of the generator
abbrev pub IsJudged :
    {Score : Type 0} → List (ChatEvent Score) → AssistantRow Score → Outcome (Unit {0}) → Type 0
IsJudged sent row out =
    (row.error_code ≡ none)
      × (phase_of sent ≡ some complete)
      × ((before : List (ChatEvent _)) × (ms : Option ℕ) × (sent
            ≡ before
              ++ done row.id row.prompt_tokens row.completion_tokens row.retrieval_ms ms ∷ []))
      × Leaves out
    ⊎ ((row.error_code ≡ some (codes "client_disconnect"))
          × ((p : Phase) × (phase_of sent ≡ some p)
              × ((p ≡ opening) ⊎ ((p ≡ running) ⊎ (p ≡ answering))))
          × (out ≡ raised cancelled)
        ⊎ (phase_of sent ≡ some broken)
          × ((code detail : Text) × (row.error_code ≡ some code)
              × IsErrorCode code
              × ((before : List (ChatEvent _)) × (sent ≡ before ++ error code detail ∷ [])))
          × Leaves out)

-- the row says what the events told
pub record IsRecord {Score : Type 0} (sent : List (ChatEvent Score)) (row : AssistantRow Score)
    (out : Outcome (Unit {0})) : Type 0 where
  pub told : text_of sent ≡ row.content
  pub listed : Listed sent row.sources
  pub judged : IsJudged sent row out

-- what the `try` settled, in the terms of the row
module _ {W Time Vector Score : Type 0} (deps : ChatDeps W Time Vector Score)
    (conv_id request_id message_id : Uuid) where
  pub Settled-IsRecord :
      (left : Outcome (Unit {0})) (sent : List (ChatEvent Score)) (t : Turn Time Score)
      (ms : Option ℕ)
      → Settled message_id left sent t
      → IsRecord sent (row_of deps message_id conv_id request_id t ms) left
  Settled-IsRecord left sent t ms (inl (c, l)) = record {
    told = c.told;
    listed = inr c.shown;
    judged = inl (c.unfailed, c.in_phase, (c.closing.0, t.generation_ms, c.closing.1), l);
  }
  Settled-IsRecord left sent t ms (inr (inl (a, l))) = record {
    told = a.told;
    listed = a.listed;
    judged = inr (inl (a.failed, a.in_phase, l));
  }
  Settled-IsRecord left sent t ms (inr (inr (b, l))) = record {
    told = b.told;
    listed = b.listed;
    judged = inr (inr (b.in_phase, b.failure, l));
  }

module _ {Score : Type 0} (sent : List (ChatEvent Score)) (row : AssistantRow Score) where
  -- a cancellation while the row is saved comes out in place of a normal end
  pub IsRecord-cancelled :
      (left : Outcome (Unit {0})) → IsRecord sent row left → IsRecord sent row (raised cancelled)
  IsRecord-cancelled left r = record { told = r.told; listed = r.listed; judged = judge r.judged }
    where
      judge : IsJudged sent row left → IsJudged sent row (raised cancelled)
      judge (inl (e, p, c, l)) = inl (e, p, c, inr refl)
      judge (inr (inl (e, p, l))) = inr (inl (e, p, refl))
      judge (inr (inr (p, f, l))) = inr (inr (p, f, inr refl))
