-- ===== src/Chat/Audit.antt =====
-- Nothing escapes the audit: the assistant's row is written once, on every way out of
-- `stream_reply`, and it says what the client was told
-- (backend/src/sovereign_rag/chat/service.py).
use sovereign_rag.Base.{
  ◌≡◌, refl, sym, ap, subst, ◌⊎◌, inl, inr, Option, [], ◌∷◌, Bool, true, false,
}
use sovereign_rag.Text.{Text}
use sovereign_rag.Effects.{Fault, cancelled, Outcome, ok, raised, Run, continue, ◌>>=◌}
use sovereign_rag.Store.{Uuid}
use sovereign_rag.Chat.Session.{Mode, ChatDeps, new_turn, Live, Reply}
use sovereign_rag.Chat.Database.{AssistantRow, user_row, assistant_row, Database, insert_message}
use sovereign_rag.Chat.Body.{reply}
use sovereign_rag.Chat.Transcript.{opening}
use sovereign_rag.Chat.Order.{IsOpen, IsComplete, Interrupted}
use sovereign_rag.Chat.Triple.{Triple}
use sovereign_rag.Chat.Replies.{replies}
use sovereign_rag.Chat.Handlers.{guarded-Settled}
use sovereign_rag.Chat.Service.{
  Session, execute, run_statement, fresh, current_request_id, resolve_conversation, guarded,
  stop_clock, row_of, after_saving, save, answer, stream_reply,
}
use sovereign_rag.Chat.Records.{IsRecord, Settled-IsRecord, IsRecord-cancelled}
use sovereign_rag.Chat.Quiet.{IsEarly, resolve_conversation-IsQuiet, current_request_id-IsQuiet}

module _ {W Score : Type 0} (db : Database Score) (message : Text) where
  -- no event, and no row
  abbrev pub IsUnanswered : Outcome (Unit {0}) → Session W Score → Type 0
  IsUnanswered out s =
      (s.sent ≡ []) × (s.database.messages ≡ db.messages) × ((e : Fault) × (out ≡ raised e))

  -- the question is stored, then the answer's row; or the insert itself raised
  abbrev pub IsAnswered : Outcome (Unit {0}) → Session W Score → Type 0
  IsAnswered out s =
      (conv_id request_id : Uuid) × (row : AssistantRow Score) × (row.conversation_id ≡ conv_id)
      × (row.request_id ≡ request_id)
      × ((s.database.messages
              ≡ assistant_row row ∷ user_row conv_id request_id message ∷ db.messages)
            × IsRecord s.sent row out
          ⊎ (s.database.messages ≡ user_row conv_id request_id message ∷ db.messages)
            × ((e : Fault) × (out ≡ raised e)))

  abbrev pub IsAudited : Outcome (Unit {0}) × Session W Score → Type 0
  IsAudited (out, s) = IsUnanswered out s ⊎ IsAnswered out s

module _ {W Time Vector Score : Type 0} (deps : ChatDeps W Time Vector Score) (db : Database Score)
    (message : Text) where
  Asked : Uuid → Uuid → Session W Score → Type 0
  Asked conv_id request_id s =
      s.database.messages ≡ user_row conv_id request_id message ∷ db.messages

  saved_or_not :
      (row : AssistantRow Score) (left saved : Outcome (Unit {0})) (s : Session W Score)
      (wanted : Bool) (w w' : W)
      → s.database.messages ≡ user_row row.conversation_id row.request_id message ∷ db.messages
      → IsRecord s.sent row left
      → (let (r, s') =
            run_statement deps
              (λ d. (tt, insert_message (assistant_row row) d))
              saved
              (record s { world = w }) in
          IsAudited db message (after_saving deps left r wanted, record s' { world = w' }))
  unfolding insert_message
  saved_or_not row left (ok _) s true w w' q r = inr (
    row.conversation_id,
    row.request_id,
    row,
    refl,
    refl,
    inl (ap (λ ms. assistant_row row ∷ ms) q, r),
  )
  saved_or_not row left (ok _) s false w w' q r = inr (
    row.conversation_id,
    row.request_id,
    row,
    refl,
    refl,
    inl (ap (λ ms. assistant_row row ∷ ms) q, IsRecord-cancelled s.sent row left r),
  )
  saved_or_not row left (raised e) s true w w' q r =
      inr (row.conversation_id, row.request_id, row, refl, refl, inr (q, (e, refl)))
  saved_or_not row left (raised e) s false w w' q r =
      inr (row.conversation_id, row.request_id, row, refl, refl, inr (q, (cancelled, refl)))

  answer-IsAudited :
      (conv_id request_id message_id : Uuid) (body : Reply W Time Score (Unit {0}))
      (s : Session W Score)
      → s.sent ≡ []
      → Asked conv_id request_id s
      → Triple (IsOpen opening) (λ _. IsComplete message_id) (Interrupted message_id) body
      → IsAudited db message (answer deps conv_id request_id message_id body s)
  unfolding answer save execute Asked new_turn
  answer-IsAudited conv_id request_id message_id body s e q h =
      let begun : Live W Time Score = record { world = s.world; sent = s.sent; turn = new_turn } in
      let ready : IsOpen opening s.sent new_turn =
        subst (λ sent. IsOpen {Time = Time} opening sent new_turn) (sym e)
          (record {
            in_phase = refl;
            told = refl;
            shown = refl;
            unfinished = refl;
            unfailed = refl;
          }) in
      let (left, live) = guarded deps body begun in
      let (ms, w) =
        stop_clock deps live.turn.generation_ms live.turn.generation_started live.world in
      let row = row_of deps message_id conv_id request_id live.turn ms in
      let closed : Session W Score = record {
        world = w;
        database = s.database;
        sent = live.sent;
      } in
      let (saved, w') = deps.statement w in
      let (wanted, w'') =
        deps.wait
          (run_statement deps (λ d. (tt, insert_message (assistant_row row) d)) saved
            (record closed { world = w' })).1.world in
      saved_or_not row left saved closed wanted w' w'' q (
        Settled-IsRecord deps conv_id request_id message_id left live.sent live.turn ms
          (guarded-Settled deps message_id body (IsOpen opening) begun h ready))

  -- the rest of the turn is audited if what comes before it is quiet
  IsAudited-continue :
      {A : Type 0} (r : Outcome A) (f : A → Run (Session W Score) (Unit {0})) (s : Session W Score)
      → IsEarly db s
      → ((a : A) (s' : Session W Score) → IsEarly db s' → IsAudited db message (f a s'))
      → IsAudited db message (continue r f s)
  IsAudited-continue (ok a) f s h k = k a s h
  IsAudited-continue (raised e) f s h k = inl (h.0, h.1, (e, refl))

  question-IsAudited :
      (conv_id request_id : Uuid) (r : Outcome (Unit {0})) (s : Session W Score)
      (f : Unit {0} → Run (Session W Score) (Unit {0}))
      → IsEarly db s
      → ((s' : Session W Score)
          → s'.sent ≡ []
          → Asked conv_id request_id s'
          → IsAudited db message (f tt s'))
      → (let (r', s') =
            run_statement deps
              (λ d. (tt, insert_message (user_row conv_id request_id message) d))
              r
              s in
          IsAudited db message (continue r' f s'))
  unfolding insert_message Asked
  question-IsAudited conv_id request_id (ok _) s f h k =
      k _ h.0 (ap (λ ms. user_row conv_id request_id message ∷ ms) h.1)
  question-IsAudited conv_id request_id (raised e) s f h k = inl (h.0, h.1, (e, refl))

  -- Whatever the components, the database and the client do, a run of stream_reply ends in one of
  -- three ways. It raises before the first event, and no message is stored. Or the question is
  -- stored and the insert of the answer raises. Or the question and exactly one row of the
  -- assistant are stored, and the row's content is the text of the delta events in their order, a
  -- sources event lists the row's sources, and its error code tells how the turn ended. It is
  -- null and the events are start, step*, sources, delta*, done, with the row's id, tokens and
  -- retrieval time in done; or it is client_disconnect, the events are an initial part of that
  -- order short of done, and the cancellation comes out; or it is the code of the error event
  -- that ends such an initial part. In the last way no exception but a cancellation comes out.
  pub stream_reply-IsAudited :
      (user_id : Text) (conversation_id : Option Uuid) (mode : Mode) (w : W)
      → IsAudited db message (
          stream_reply deps user_id conversation_id message mode
            (record { world = w; database = db; sent = [] }))
  unfolding stream_reply execute fresh ◌>>=◌ Asked
  stream_reply-IsAudited user_id conversation_id mode w =
      let begun : Session W Score = record { world = w; database = db; sent = [] } in
      IsAudited-continue (resolve_conversation deps user_id conversation_id message begun).0 _ _
        ((resolve_conversation-IsQuiet deps db user_id message conversation_id).at begun
          (refl, refl))
        λ (conv_id, history) s1 h1.
          IsAudited-continue (current_request_id deps s1).0 _ _
            ((current_request_id-IsQuiet deps db).at s1 h1)
            λ request_id s2 h2.
              question-IsAudited conv_id request_id (deps.statement s2.world).0 _ _ h2 λ s3 e q.
                let (message_id, w4) = deps.uuid4 s3.world in
                answer-IsAudited conv_id request_id message_id
                  (reply deps mode user_id conv_id message_id history message)
                  (record s3 { world = w4 }) e q
                  (replies deps message_id mode user_id conv_id history message)
