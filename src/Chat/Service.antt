-- ===== src/Chat/Service.antt =====
-- `ChatService` (backend/src/sovereign_rag/chat/service.py): `stream_reply` with its handlers and
-- its `finally`, and the statements on the database.
use mathlib.Core.List.{reverse}
use sovereign_rag.Base.{ℕ, Option, none, some, List, [], Bool, true, false, if◌then◌else◌, take}
use sovereign_rag.Text.{Text, codes, same_text}
use sovereign_rag.Effects.{
  Outcome, ok, raised, Fault, provider_error, cancelled, other_error, Run, pure, raise, ◌>>=◌, ◌>>◌,
}
use sovereign_rag.Llm.{ChatMessage}
use sovereign_rag.Store.{Uuid}
use sovereign_rag.Chat.Session.{
  ChatEvent, error, Mode, Turn, new_turn, ChatDeps, Reply, assign, yield_event,
}
use sovereign_rag.Chat.Database.{
  AssistantRow, user_row, assistant_row, Database, insert_conversation, select_owner,
  select_history, insert_message,
}
use sovereign_rag.Chat.Body.{reply}

abbrev pub history_limit : ℕ
history_limit = 10

-- the world, the tables, and the events that were yielded
pub record Session (W Score : Type 0) : Type 0 where
  pub world : W
  pub database : Database Score
  pub sent : List (ChatEvent Score)

-- `row is not None and row[0] == user.id`
abbrev pub is_owner : Text → Option Text → Bool
is_owner user_id none = false
is_owner user_id (some owner) = same_text owner user_id

module _ {W Time Vector Score : Type 0} (deps : ChatDeps W Time Vector Score) where
  abbrev pub run_statement :
      {A : Type 0}
      → (Database Score → A × Database Score)
      → Outcome (Unit {0})
      → Run (Session W Score) A
  run_statement f (ok _) s = let (a, db) = f s.database in (ok a, record s { database = db })
  run_statement f (raised e) s = (raised e, s)

  -- a connection of the pool and a statement on it: where it raises, nothing is committed
  unfoldable pub execute :
      {A : Type 0} → (Database Score → A × Database Score) → Run (Session W Score) A
  execute f s = let (r, w) = deps.statement s.world in run_statement f r (record s { world = w })

  unfoldable pub fresh : Run (Session W Score) Uuid
  fresh s = let (id, w) = deps.uuid4 s.world in (ok id, record s { world = w })

  abbrev pub uuid_or_fresh : Option Uuid → Run (Session W Score) Uuid
  uuid_or_fresh none = fresh
  uuid_or_fresh (some id) = pure id

  abbrev pub request_id_of : Option Text → Run (Session W Score) Uuid
  request_id_of none = fresh
  request_id_of (some raw) = uuid_or_fresh (deps.parse_uuid raw)

  -- `_current_request_id`
  unfoldable pub current_request_id : Run (Session W Score) Uuid
  unfolding fresh
  current_request_id s = request_id_of (deps.bound_request_id s.world) s

  -- the history, the oldest message first; foreign and unknown conversations raise alike
  abbrev pub load_history : Uuid → Bool → Run (Session W Score) (Uuid × List ChatMessage)
  load_history id false = raise (other_error (codes "LookupError"))
  load_history id true = do
    rows ← execute λ db. (select_history id history_limit db, db)
    pure (id, reverse rows)

  -- `_resolve_conversation`
  unfoldable pub resolve_conversation :
      Text → Option Uuid → Text → Run (Session W Score) (Uuid × List ChatMessage)
  unfolding fresh execute
  resolve_conversation user_id none message = do
    id ← fresh
    execute λ db. ((id, []), insert_conversation id user_id (take 60 message) db)
  resolve_conversation user_id (some id) message = do
    owner ← execute λ db. (select_owner id db.conversations, db)
    load_history id (is_owner user_id owner)

  -- the `except` clauses: what is left to raise
  unfoldable pub handle_fault : Fault → Reply W Time Score (Unit {0})
  handle_fault (provider_error detail) = do
    assign (λ t. record t { error_code = some (codes "provider_error") })
    yield_event deps (error (codes "provider_error") detail)
  handle_fault cancelled = do
    assign
        λ t. if t.is_finished then t else record t { error_code = some (codes "client_disconnect") }
    raise cancelled
  handle_fault _ = do
    assign (λ t. record t { error_code = some (codes "internal_error") })
    yield_event deps (error (codes "internal_error") (codes "unexpected server error"))

  abbrev pub handle_outcome : Outcome (Unit {0}) → Reply W Time Score (Unit {0})
  handle_outcome (ok _) = pure tt
  handle_outcome (raised e) = handle_fault e

  -- `try` and `except`
  unfoldable pub guarded : Reply W Time Score (Unit {0}) → Reply W Time Score (Unit {0})
  unfolding handle_fault
  guarded body s = let (r, s') = body s in handle_outcome r s'

  -- `generation_ms` of the `finally`: an interrupted generation is measured too
  abbrev pub stop_clock : Option ℕ → Option Time → W → Option ℕ × W
  stop_clock none (some t0) w =
      let (t1, w') = deps.perf_counter w in (some (deps.elapsed_ms t0 t1), w')
  stop_clock ms started w = (ms, w)

  abbrev pub row_of : Uuid → Uuid → Uuid → Turn Time Score → Option ℕ → AssistantRow Score
  row_of message_id conv_id request_id t ms = record {
    id = message_id;
    conversation_id = conv_id;
    request_id = request_id;
    content = t.accumulated;
    sources = t.recorded_sources;
    model = deps.model;
    prompt_tokens = t.prompt_tokens;
    completion_tokens = t.completion_tokens;
    retrieval_ms = t.retrieval_ms;
    generation_ms = ms;
    error_code = t.error_code;
  }

  -- what leaves the `finally`: a cancellation that came during the insert wins, then the insert's
  -- fault, then what the `try` left
  abbrev pub after_saving : Outcome (Unit {0}) → Outcome (Unit {0}) → Bool → Outcome (Unit {0})
  after_saving left saved false = raised cancelled
  after_saving left (raised e) true = raised e
  after_saving left (ok _) true = left

  -- the shielded insert, which goes on to its end whoever cancels
  unfoldable pub save : AssistantRow Score → Outcome (Unit {0}) → Run (Session W Score) (Unit {0})
  unfolding execute
  save row left s =
      let (saved, s') = execute (λ db. (tt, insert_message (assistant_row row) db)) s in
      let (wanted, w) = deps.wait s'.world in
      (after_saving left saved wanted, record s' { world = w })

  -- the `try` statement with all its clauses
  unfoldable pub answer :
      Uuid → Uuid → Uuid → Reply W Time Score (Unit {0}) → Run (Session W Score) (Unit {0})
  unfolding guarded save
  answer conv_id request_id message_id body s =
      let (left, live) =
        guarded body (record { world = s.world; sent = s.sent; turn = new_turn }) in
      let (ms, w) = stop_clock live.turn.generation_ms live.turn.generation_started live.world in
      save (row_of message_id conv_id request_id live.turn ms) left
        (record { world = w; database = s.database; sent = live.sent })

  unfoldable pub stream_reply : Text → Option Uuid → Text → Mode → Run (Session W Score) (Unit {0})
  unfolding resolve_conversation current_request_id answer
  stream_reply user_id conversation_id message mode = do
    (conv_id, history) ← resolve_conversation user_id conversation_id message
    request_id ← current_request_id
    execute λ db. (tt, insert_message (user_row conv_id request_id message) db)
    message_id ← fresh
    answer conv_id request_id message_id
        (reply deps mode user_id conv_id message_id history message)
