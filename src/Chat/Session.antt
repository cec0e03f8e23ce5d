-- ===== src/Chat/Session.antt =====
-- What a chat turn is made of (backend/src/sovereign_rag/chat/service.py): its events, its local
-- variables, and what the service is given.
use sovereign_rag.Base.{ℕ, Option, none, List, [], ◌∷◌, ◌++◌, Bool, true, false}
use sovereign_rag.Text.{Text}
use sovereign_rag.Effects.{Outcome, ok, raised, cancelled, Run}
use sovereign_rag.Json.{JsonModule}
use sovereign_rag.Llm.{LlmClient}
use sovereign_rag.Store.{Uuid, EmbeddingClient, VectorStore, Reranker}
use sovereign_rag.Chat.Prompts.{SourceOut}

-- one constructor for each `type`, with the fields of its `data`
pub data ChatEvent (Score : Type 0) : Type 0 where
  start : Uuid → ChatEvent Score
  step : Text → Text → ChatEvent Score
  sources : List (SourceOut Score) → ChatEvent Score
  delta : Text → ChatEvent Score
  -- message_id, prompt_tokens, completion_tokens, retrieval_ms, generation_ms
  done : Uuid → Option ℕ → Option ℕ → Option ℕ → Option ℕ → ChatEvent Score
  -- code, detail
  error : Text → Text → ChatEvent Score

pub data Mode : Type 0 where
  standard deep : Mode

-- the variables that `stream_reply` assigns in its `try`; `accumulated` is the join of the list
pub record Turn (Time Score : Type 0) : Type 0 where
  pub accumulated : Text
  pub recorded_sources : List (SourceOut Score)
  pub prompt_tokens : Option ℕ
  pub completion_tokens : Option ℕ
  pub retrieval_ms : Option ℕ
  pub generation_ms : Option ℕ
  pub error_code : Option Text
  pub generation_started : Option Time
  pub is_finished : Bool

-- their values before the `try`
unfoldable pub new_turn : {Time Score : Type 0} → Turn Time Score
new_turn = record {
  accumulated = [];
  recorded_sources = [];
  prompt_tokens = none;
  completion_tokens = none;
  retrieval_ms = none;
  generation_ms = none;
  error_code = none;
  generation_started = none;
  is_finished = false;
}

-- The components of the service and its surroundings. The client and the event loop are part of
-- the world: it says whether the client is gone when an event is yielded or an await goes on.
pub record ChatDeps (W Time Vector Score : Type 0) : Type 0 where
  pub llm : LlmClient W
  pub embedder : EmbeddingClient W Vector
  pub store : VectorStore W Vector Score
  pub reranker : Option (Reranker W Score)
  pub json : JsonModule
  -- settings.retrieval_top_k, settings.reranker_candidates
  pub retrieval_top_k : ℕ
  pub reranker_candidates : ℕ
  -- f"{settings.llm_provider}/{llm.model}"
  pub model : Text
  -- the limit of `ainvoke` on the nodes that run
  pub recursion_limit : ℕ
  -- time.perf_counter(), and int((t1 - t0) * 1000)
  pub perf_counter : W → Time × W
  pub elapsed_ms : Time → Time → ℕ
  pub uuid4 : W → Uuid × W
  -- the request id of the log context, and `UUID` of it, which may raise ValueError
  pub bound_request_id : W → Option Text
  pub parse_uuid : Text → Option Uuid
  -- is the client still there after this event
  pub receive : ChatEvent Score → W → Bool × W
  -- is this task still wanted when `queue.get()` or the shielded insert returns
  pub wait : W → Bool × W
  -- does a connection of the pool come, and does its statement run
  pub statement : Run W (Unit {0})

-- the state of the generator: the events it has yielded, the first one first, and its variables
pub record Live (W Time Score : Type 0) : Type 0 where
  pub world : W
  pub sent : List (ChatEvent Score)
  pub turn : Turn Time Score

abbrev pub Reply : Type 0 → Type 0 → Type 0 → Type 0 → Type 0
Reply W Time Score A = Run (Live W Time Score) A

module _ {W Time Score : Type 0} where
  -- a call that reads no variable and yields nothing
  unfoldable pub on_world : {A : Type 0} → Run W A → Reply W Time Score A
  on_world m s = let (r, w) = m s.world in (r, record s { world = w })

  -- assignments
  unfoldable pub assign : (Turn Time Score → Turn Time Score) → Reply W Time Score (Unit {0})
  assign f s = (ok tt, record s { turn = f s.turn })

  unfoldable pub reads : {A : Type 0} → (Turn Time Score → A) → Reply W Time Score A
  reads f s = (ok (f s.turn), s)

abbrev pub or_cancelled : Bool → Outcome (Unit {0})
or_cancelled true = ok tt
or_cancelled false = raised cancelled

module _ {W Time Vector Score : Type 0} (deps : ChatDeps W Time Vector Score) where
  -- `yield event`: where the client is gone, GeneratorExit or CancelledError comes out of it
  unfoldable pub yield_event : ChatEvent Score → Reply W Time Score (Unit {0})
  yield_event event s =
      let (there, w) = deps.receive event s.world in
      (or_cancelled there, record s { world = w; sent = s.sent ++ event ∷ [] })

  -- an await that may be cancelled
  unfoldable pub await_turn : Run W (Unit {0})
  await_turn w = let (there, w') = deps.wait w in (or_cancelled there, w')

  unfoldable pub now : Run W Time
  now w = let (t, w') = deps.perf_counter w in (ok t, w')
