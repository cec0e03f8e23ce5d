-- ===== src/Chat/Quiet.antt =====
-- What comes before the first event of a turn stores no message
-- (`_resolve_conversation` and `_current_request_id` of
-- backend/src/sovereign_rag/chat/service.py).
use sovereign_rag.Base.{◌≡◌, refl, ◌∙◌, Option, none, some, [], Bool, true, false}
use sovereign_rag.Text.{Text}
use sovereign_rag.Effects.{Outcome, ok, raised, Run, continue, pure, raise, ◌>>=◌}
use sovereign_rag.Store.{Uuid}
use sovereign_rag.Chat.Session.{ChatDeps}
use sovereign_rag.Chat.Database.{Database, insert_conversation}
use sovereign_rag.Chat.Service.{
  Session, execute, run_statement, fresh, uuid_or_fresh, request_id_of, current_request_id,
  is_owner, load_history, resolve_conversation,
}

-- nothing was said, and no message stored yet
abbrev pub IsEarly : {W Score : Type 0} → Database Score → Session W Score → Type 0
IsEarly db s = (s.sent ≡ []) × (s.database.messages ≡ db.messages)

module _ {W Time Vector Score : Type 0} (deps : ChatDeps W Time Vector Score)
    (db : Database Score) where
  -- a part that comes before the first event and stores no message
  pub record IsQuiet {A : Type 0} (m : Run (Session W Score) A) : Type 0 where
    pub at : (s : Session W Score) → IsEarly db s → IsEarly db (m s).1

  IsQuiet-pure : {A : Type 0} (a : A) → IsQuiet (pure a)
  unfolding pure
  IsQuiet-pure a = record { at = λ s h. h }

  IsQuiet-continue :
      {A B : Type 0} (r : Outcome A) (f : A → Run (Session W Score) B) (s : Session W Score)
      → IsEarly db s
      → ((a : A) → IsQuiet (f a))
      → IsEarly db (continue r f s).1
  IsQuiet-continue (ok a) f s h k = (k a).at s h
  IsQuiet-continue (raised e) f s h k = h

  IsQuiet-bind :
      {A B : Type 0} (m : Run (Session W Score) A) (f : A → Run (Session W Score) B)
      → IsQuiet m
      → ((a : A) → IsQuiet (f a))
      → IsQuiet (m >>= f)
  unfolding ◌>>=◌
  IsQuiet-bind m f h k = record { at = λ s e. IsQuiet-continue (m s).0 f (m s).1 (h.at s e) k }

  pub IsQuiet-fresh : IsQuiet (fresh deps)
  unfolding fresh
  IsQuiet-fresh = record { at = λ s h. h }

  -- a statement that leaves the messages as they are
  IsQuiet-execute :
      {A : Type 0} (f : Database Score → A × Database Score)
      → ((d : Database Score) → (f d).1.messages ≡ d.messages)
      → IsQuiet (execute deps f)
  unfolding execute
  IsQuiet-execute f k = record {
    at = λ s h. runs (deps.statement s.world).0 (record s { world = (deps.statement s.world).1 }) h;
  }
    where
      runs :
          (r : Outcome (Unit {0})) (s : Session W Score)
          → IsEarly db s
          → IsEarly db (run_statement deps f r s).1
      runs (ok _) s h = (h.0, k s.database ∙ h.1)
      runs (raised e) s h = h

  pub load_history-IsQuiet : (id : Uuid) (owned : Bool) → IsQuiet (load_history deps id owned)
  unfolding raise
  load_history-IsQuiet id false = record { at = λ s h. h }
  load_history-IsQuiet id true =
      IsQuiet-bind _ _ (IsQuiet-execute _ (λ d. refl)) (λ rows. IsQuiet-pure _)

  pub resolve_conversation-IsQuiet :
      (user_id message : Text) (conversation_id : Option Uuid)
      → IsQuiet (resolve_conversation deps user_id conversation_id message)
  unfolding resolve_conversation insert_conversation
  resolve_conversation-IsQuiet user_id message none =
      IsQuiet-bind _ _ IsQuiet-fresh (λ id. IsQuiet-execute _ (λ d. refl))
  resolve_conversation-IsQuiet user_id message (some id) =
      IsQuiet-bind _ _ (IsQuiet-execute _ (λ d. refl))
        (λ owner. load_history-IsQuiet id (is_owner user_id owner))

  pub uuid_or_fresh-IsQuiet : (o : Option Uuid) → IsQuiet (uuid_or_fresh deps o)
  uuid_or_fresh-IsQuiet none = IsQuiet-fresh
  uuid_or_fresh-IsQuiet (some id) = IsQuiet-pure id

  pub request_id_of-IsQuiet : (o : Option Text) → IsQuiet (request_id_of deps o)
  request_id_of-IsQuiet none = IsQuiet-fresh
  request_id_of-IsQuiet (some raw) = uuid_or_fresh-IsQuiet (deps.parse_uuid raw)

  pub current_request_id-IsQuiet : IsQuiet (current_request_id deps)
  unfolding current_request_id
  current_request_id-IsQuiet = record {
    at = λ s h. (request_id_of-IsQuiet (deps.bound_request_id s.world)).at s h;
  }
