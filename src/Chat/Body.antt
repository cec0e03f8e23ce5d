-- ===== src/Chat/Body.antt =====
-- The `try` of `stream_reply` in both modes, and `_run_deep`
-- (backend/src/sovereign_rag/chat/service.py). The graph runs in a task of its own, to which
-- nothing comes back from the client: here it runs to its end, then its queue is read.
use sovereign_rag.Base.{ℕ, Option, none, some, List, [], ◌∷◌, ◌++◌, true, length}
use sovereign_rag.Text.{Text, codes}
use sovereign_rag.Effects.{Outcome, ok, raised, other_error, Run, pure, raise, lift, ◌>>=◌, ◌>>◌}
use sovereign_rag.Llm.{ChatMessage, ChunkStream, finished, failed, chunk, keep_tokens}
use sovereign_rag.Store.{Uuid, SearchHit, Reranker}
use sovereign_rag.Deep.State.{DeepDeps, DeepState, DeepOutcome, delivered}
use sovereign_rag.Deep.Graph.{invoke}
use sovereign_rag.Ingestion.Chunking.Units.{cuts}
use sovereign_rag.Chat.Prompts.{build_messages, hits_to_sources}
use sovereign_rag.Chat.Session.{
  ChatEvent, start, step, sources, delta, done, Mode, standard, deep, Turn, ChatDeps, Reply,
  on_world, assign, reads, yield_event, await_turn, now,
}

-- what `emit` puts on the queue
abbrev pub Queue : Type 0
Queue = List (Text × Text)

-- a component that does not know the queue
abbrev pub beside : {W A : Type 0} → Run W A → Run (W × Queue) A
beside m (w, queue) = let (r, w') = m w in (r, (w', queue))

-- the last event, from the variables
abbrev pub done_event : {Time Score : Type 0} → Uuid → Turn Time Score → ChatEvent Score
done_event message_id t =
    done message_id t.prompt_tokens t.completion_tokens t.retrieval_ms t.generation_ms

module _ {W Time Vector Score : Type 0} (deps : ChatDeps W Time Vector Score) where
  abbrev pub beside_reranker : Option (Reranker W Score) → Option (Reranker (W × Queue) Score)
  beside_reranker none = none
  beside_reranker (some r) = some (record { rerank = λ q hits k. beside (r.rerank q hits k) })

  -- the `DeepDeps` of `_run_deep`, with its `emit`
  unfoldable pub deep_deps : Text → DeepDeps (W × Queue) Vector Score
  deep_deps user_id = record {
    llm = record {
      stream_chat = λ messages (w, queue).
          let (stream, w') = deps.llm.stream_chat messages w in (stream, (w', queue));
    };
    embedder = record { embed_query = λ q. beside (deps.embedder.embed_query q) };
    store = record { hybrid_search = λ q v user k. beside (deps.store.hybrid_search q v user k) };
    reranker = beside_reranker deps.reranker;
    user_id = user_id;
    emit = λ agent detail (w, queue). (ok tt, (w, queue ++ (agent, detail) ∷ []));
    json = deps.json;
  }

  -- the task: what it ends with, and the queue that it leaves
  unfoldable pub deep_task : Text → Text → Run W (Outcome (Option (DeepState Score)) × Queue)
  unfolding deep_deps
  deep_task user_id message w =
      let (r, (w', queue)) = invoke (deep_deps user_id) deps.recursion_limit message (w, []) in
      (ok (r, queue), w')

  -- `task.result()`; at its limit `ainvoke` raises
  unfoldable pub task_result : Outcome (Option (DeepState Score)) → Outcome (DeepState Score)
  task_result (ok none) = raised (other_error (codes "GraphRecursionError"))
  task_result (ok (some final)) = ok final
  task_result (raised e) = raised e

  -- the `hits` and the `draft` of the result
  unfoldable pub deep_result : DeepOutcome → DeepState Score → List (SearchHit Score) × Option Text
  deep_result delivered final = (final.evidence, some final.draft)
  deep_result _ final = ([], none)

  -- each item of the queue, up to the `None` that ends it
  unfoldable pub read_queue : Queue → Reply W Time Score (Unit {0})
  read_queue [] = on_world (await_turn deps)
  read_queue ((agent, detail) ∷ queue) = do
    on_world (await_turn deps)
    yield_event deps (step agent detail)
    read_queue queue

  unfoldable pub run_deep : Text → Text → Reply W Time Score (List (SearchHit Score) × Option Text)
  unfolding deep_task task_result deep_result read_queue
  run_deep user_id message = do
    (r, queue) ← on_world (deep_task user_id message)
    read_queue queue
    final ← lift (task_result r)
    pure (deep_result final.outcome final)

  -- `accumulated.append(piece)`, then the event
  unfoldable pub tell : Text → Reply W Time Score (Unit {0})
  tell piece = do
    assign (λ t. record t { accumulated = t.accumulated ++ piece })
    yield_event deps (delta piece)

  -- `if chunk.delta:`
  unfoldable pub tell_delta : Text → Reply W Time Score (Unit {0})
  unfolding tell
  tell_delta [] = pure tt
  tell_delta (c ∷ s) = tell (c ∷ s)

  unfoldable pub tell_each : List Text → Reply W Time Score (Unit {0})
  unfolding tell
  tell_each [] = pure tt
  tell_each (piece ∷ pieces) = do tell piece; tell_each pieces

  unfoldable pub read_stream : ChunkStream → Reply W Time Score (Unit {0})
  unfolding tell_delta
  read_stream finished = pure tt
  read_stream (failed e) = raise e
  read_stream (chunk c rest) = do
    tell_delta c.delta
    assign λ t. record t {
      prompt_tokens = keep_tokens t.prompt_tokens c.prompt_tokens;
      completion_tokens = keep_tokens t.completion_tokens c.completion_tokens;
    }
    read_stream rest

  -- `async for chunk in self._llm.stream_chat(messages)`
  unfoldable pub generate : List ChatMessage → Reply W Time Score (Unit {0})
  unfolding read_stream
  generate messages = do
    stream ← on_world λ w. let (stream, w') = deps.llm.stream_chat messages w in (ok stream, w')
    read_stream stream

  abbrev pub since : Option Time → Time → Option ℕ
  since none t = none
  since (some t0) t = some (deps.elapsed_ms t0 t)

  -- `generation_ms`, `finished` and the last event
  unfoldable pub finish : Uuid → Reply W Time Score (Unit {0})
  finish message_id = do
    t ← on_world (now deps)
    assign
        λ turn. record turn { generation_ms = since turn.generation_started t; is_finished = true }
    event ← reads (done_event message_id)
    yield_event deps event

  -- `retrieval_ms` and `sources`
  unfoldable pub set_sources : Time → List (SearchHit Score) → Reply W Time Score (Unit {0})
  set_sources t0 hits = do
    t1 ← on_world (now deps)
    assign λ turn. record turn {
      retrieval_ms = some (deps.elapsed_ms t0 t1);
      recorded_sources = hits_to_sources hits;
    }

  unfoldable pub start_clock : Reply W Time Score (Unit {0})
  start_clock = do
    t ← on_world (now deps)
    assign λ turn. record turn { generation_started = some t }

  unfoldable pub list_sources : Reply W Time Score (Unit {0})
  list_sources = do shown ← reads λ turn. turn.recorded_sources; yield_event deps (sources shown)

  -- the verified draft in slices of 80 characters, or the refusal of the model
  unfoldable pub answer_deep : List ChatMessage → Text → Option Text → Reply W Time Score (Unit {0})
  unfolding tell_each generate
  answer_deep history message none =
      generate (build_messages {Score = Score} history message [] (λ text. text))
  answer_deep history message (some draft) = tell_each (cuts (length draft) 80 draft)

  unfoldable pub reply_deep :
      Text → Uuid → Uuid → List ChatMessage → Text → Reply W Time Score (Unit {0})
  unfolding run_deep set_sources start_clock list_sources answer_deep finish
  reply_deep user_id conv_id message_id history message = do
    yield_event deps (start conv_id)
    t0 ← on_world (now deps)
    (hits, prewritten) ← run_deep user_id message
    set_sources t0 hits
    list_sources
    start_clock
    answer_deep history message prewritten
    finish message_id

  abbrev pub pool_k : Option (Reranker W Score) → ℕ
  pool_k none = deps.retrieval_top_k
  pool_k (some r) = deps.reranker_candidates

  abbrev pub rerank_hits :
      Option (Reranker W Score) → Text → List (SearchHit Score) → Run W (List (SearchHit Score))
  rerank_hits none message hits = pure hits
  rerank_hits (some r) message hits = r.rerank message hits deps.retrieval_top_k

  -- `rerank_ms` and the counts of the hits are only logged
  unfoldable pub reply_standard :
      Text → Uuid → Uuid → List ChatMessage → Text → Reply W Time Score (Unit {0})
  unfolding set_sources start_clock list_sources generate finish
  reply_standard user_id conv_id message_id history message = do
    t0 ← on_world (now deps)
    query_embedding ← on_world (deps.embedder.embed_query message)
    pool ←
        on_world (deps.store.hybrid_search message query_embedding user_id (pool_k deps.reranker))
    hits ← on_world (rerank_hits deps.reranker message pool)
    set_sources t0 hits
    yield_event deps (start conv_id)
    list_sources
    start_clock
    generate (build_messages history message hits (λ text. text))
    finish message_id

  unfoldable pub reply :
      Mode → Text → Uuid → Uuid → List ChatMessage → Text → Reply W Time Score (Unit {0})
  unfolding reply_deep reply_standard
  reply standard = reply_standard
  reply deep = reply_deep
