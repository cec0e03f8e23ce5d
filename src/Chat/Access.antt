-- ===== src/Chat/Access.antt =====
-- A conversation of another user is refused (`_resolve_conversation` of
-- backend/src/sovereign_rag/chat/service.py).
use sovereign_rag.Base.{List, ◌≡◌, refl, ◌⊎◌, inl, inr, some, [], false}
use sovereign_rag.Text.{Text, codes}
use sovereign_rag.Effects.{Fault, other_error, Outcome, ok, raised, Run, continue, raise, ◌>>=◌}
use sovereign_rag.Llm.{ChatMessage}
use sovereign_rag.Store.{Uuid}
use sovereign_rag.Chat.Session.{Mode, ChatDeps}
use sovereign_rag.Chat.Database.{Database, select_owner}
use sovereign_rag.Chat.Service.{
  Session, execute, run_statement, is_owner, load_history, resolve_conversation, stream_reply,
}

-- the exception that the route answers with 404
abbrev pub lookup_error : Fault
lookup_error = other_error (codes "LookupError")

-- refused, or the statement that reads the owner raised
abbrev pub IsRefused :
    {W Score : Type 0}
    → Outcome (Unit {0})
    → Database Score
    → Outcome (Unit {0}) × Session W Score
    → Type 0
IsRefused read db (out, s) =
    (s.sent ≡ [])
    × (s.database ≡ db)
    × ((out ≡ raised lookup_error) ⊎ ((e : Fault) × (read ≡ raised e) × (out ≡ raised e)))

module _ {W Time Vector Score : Type 0} (deps : ChatDeps W Time Vector Score) where
  refuses :
      (user_id : Text) (id : Uuid) (db : Database Score) (w : W) (read : Outcome (Unit {0}))
      (f : Uuid × List ChatMessage → Run (Session W Score) (Unit {0}))
      → is_owner user_id (select_owner id db.conversations) ≡ false
      → (let (r, s) =
            run_statement deps
              (λ d. (select_owner id d.conversations, d))
              read
              (record { world = w; database = db; sent = [] }) in
          let (r', s') = continue r (λ owner. load_history deps id (is_owner user_id owner)) s in
          IsRefused read db (continue r' f s'))
  unfolding raise
  refuses user_id id db w (ok _) f h = rw h (refl, refl, inl refl)
  refuses user_id id db w (raised e) f h = (refl, refl, inr (e, refl, refl))

  -- For a conversation that is unknown or belongs to another user, stream_reply yields no event
  -- and leaves the database as it is: it raises LookupError, or the fault of the statement that
  -- reads the owner.
  pub stream_reply-IsRefused :
      (user_id : Text) (id : Uuid) (message : Text) (mode : Mode) (w : W) (db : Database Score)
      → is_owner user_id (select_owner id db.conversations) ≡ false
      → IsRefused (deps.statement w).0 db (
          stream_reply deps user_id
            (some id)
            message
            mode
            (record { world = w; database = db; sent = [] }))
  unfolding stream_reply resolve_conversation execute ◌>>=◌
  stream_reply-IsRefused user_id id message mode w db h =
      refuses user_id id db (deps.statement w).1 (deps.statement w).0 _ h
