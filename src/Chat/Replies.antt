-- ===== src/Chat/Replies.antt =====
-- A whole reply, in both modes: the events come in their order and agree with the variables
-- (the `try` of `stream_reply`, and `_run_deep`, of backend/src/sovereign_rag/chat/service.py).
use sovereign_rag.Base.{
  ℕ, ◌≡◌, refl, sym, ap, ◌∙◌, subst, inr, Option, none, some, List, [], ◌∷◌, ◌++◌, true, length,
}
use sovereign_rag.Text.{Text}
use sovereign_rag.Llm.{ChatMessage, ChunkStream, finished, failed, chunk}
use sovereign_rag.Store.{Uuid, SearchHit}
use sovereign_rag.Ingestion.Chunking.Units.{cuts}
use sovereign_rag.Chat.Session.{
  ChatEvent, Mode, standard, deep, ChatDeps, Turn, Reply, await_turn, now,
}
use sovereign_rag.Chat.Body.{
  Queue, done_event, deep_task, task_result, read_queue, run_deep, tell_delta, tell_each,
  read_stream, generate, finish, answer_deep, reply_deep, reply_standard, reply,
}
use sovereign_rag.Chat.Transcript.{opening, running, answering, hear_phase}
use sovereign_rag.Chat.Triple.{
  Claim, Triple, Triple-pure, Triple-raise, Triple-bind, Triple-lift, Triple-assign,
  Triple-yield_event, Triple-reads,
}
use sovereign_rag.Chat.Order.{
  IsOpen, IsComplete, phase_of-append, text_of-append, sources_of-append,
}
use sovereign_rag.Chat.Parts.{
  At, Fails, Part, still, calls, sets, starts, steps, lists, clock_starts, sets_sources, tells,
}

module _ {W Time Vector Score : Type 0} (deps : ChatDeps W Time Vector Score)
    (message_id : Uuid) where
  -- the variables as `finish` assigns them
  abbrev closed : Option ℕ → Turn Time Score → Turn Time Score
  closed ms t = record t { generation_ms = ms; is_finished = true }

  abbrev Closing : Claim Time Score
  Closing sent t =
      (t0 : Turn Time Score) × IsOpen answering sent t0 × (ms : Option ℕ) × (t ≡ closed ms t0)

  completes :
      (event : ChatEvent Score) (sent : List (ChatEvent Score)) (t t0 : Turn Time Score)
      (ms : Option ℕ)
      → IsOpen answering sent t0
      → t ≡ closed ms t0
      → done_event message_id t ≡ event
      → IsComplete message_id (sent ++ event ∷ []) t
  completes event sent t t0 ms o e d =
      let last : event ≡ done_event message_id (closed ms t0) =
        sym d ∙ ap (done_event message_id) e in
      subst (IsComplete message_id (sent ++ event ∷ [])) (sym e) (
        subst (λ x. IsComplete message_id (sent ++ x ∷ []) (closed ms t0)) (sym last)
          (record {
            in_phase =
                phase_of-append sent _
                ∙ ap (λ x. hear_phase x (done_event message_id (closed ms t0))) o.in_phase;
            told = text_of-append sent _ ∙ o.told;
            shown = sources_of-append sent _ ∙ o.shown;
            over = refl;
            unfailed = o.unfailed;
            closing = (sent, refl);
          }))

  finishes :
      Triple
        (At deps message_id answering)
        (λ _. IsComplete message_id)
        (Fails deps message_id)
        (finish deps message_id)
  unfolding finish
  finishes = Triple-bind _ _ (calls deps message_id answering (now deps)) λ t1.
      Triple-bind {Q = λ _. Closing} _ _ (Triple-assign _ (λ sent t o. (t, o, _, refl))) λ _.
        Triple-bind _ _ (Triple-reads (done_event message_id)) λ event.
          Triple-yield_event deps event
            (λ sent t (d, (t0, o, ms, e)). completes event sent t t0 ms o e d)
            (λ sent t (d, (t0, o, ms, e)). inr (refl, completes event sent t t0 ms o e d))

  tells_each :
      (pieces : List Text)
      → Part deps message_id (Unit {0}) answering answering (tell_each deps pieces)
  unfolding tell_each
  tells_each [] = Triple-pure tt (λ sent t o. o)
  tells_each (piece ∷ pieces) =
      Triple-bind _ _ (tells deps message_id piece) (λ _. tells_each pieces)

  tells_delta :
      (piece : Text) → Part deps message_id (Unit {0}) answering answering (tell_delta deps piece)
  unfolding tell_delta
  tells_delta [] = Triple-pure tt (λ sent t o. o)
  tells_delta (c ∷ s) = tells deps message_id (c ∷ s)

  reads_stream :
      (stream : ChunkStream)
      → Part deps message_id (Unit {0}) answering answering (read_stream deps stream)
  unfolding read_stream
  reads_stream finished = Triple-pure tt (λ sent t o. o)
  reads_stream (failed e) = Triple-raise e (still deps message_id answering e)
  reads_stream (chunk c rest) = Triple-bind _ _ (tells_delta c.delta) λ _.
      Triple-bind _ _
        (sets deps message_id answering _ (λ sent t o. record {
          in_phase = o.in_phase;
          told = o.told;
          shown = o.shown;
          unfinished = o.unfinished;
          unfailed = o.unfailed;
        }))
        λ _. reads_stream rest

  generates :
      (messages : List ChatMessage)
      → Part deps message_id (Unit {0}) answering answering (generate deps messages)
  unfolding generate
  generates messages =
      Triple-bind _ _ (calls deps message_id answering _) (λ stream. reads_stream stream)

  reads_queue :
      (queue : Queue) → Part deps message_id (Unit {0}) running running (read_queue deps queue)
  unfolding read_queue
  reads_queue [] = calls deps message_id running (await_turn deps)
  reads_queue ((agent, detail) ∷ queue) =
      Triple-bind _ _ (calls deps message_id running (await_turn deps))
        λ _. Triple-bind _ _ (steps deps message_id agent detail) λ _. reads_queue queue

  runs_deep :
      (user_id message : Text)
      → Part deps message_id
          (List (SearchHit Score) × Option Text)
          running
          running
          (run_deep deps user_id message)
  unfolding run_deep
  runs_deep user_id message =
      Triple-bind _ _ (calls deps message_id running (deep_task deps user_id message)) λ (r, queue).
        Triple-bind _ _ (reads_queue queue) λ _.
          Triple-bind _ _
            (Triple-lift (At deps message_id running) (Fails deps message_id)
              (still deps message_id running) (task_result deps r))
            λ final. Triple-pure _ (λ sent t o. o)

  answers_deep :
      (history : List ChatMessage) (message : Text) (draft : Option Text)
      → Part deps message_id (Unit {0}) answering answering (answer_deep deps history message draft)
  unfolding answer_deep
  answers_deep history message none = generates _
  answers_deep history message (some draft) = tells_each (cuts (length draft) 80 draft)

  abbrev Whole : Reply W Time Score (Unit {0}) → Type 0
  Whole m =
      Triple (At deps message_id opening) (λ _. IsComplete message_id) (Fails deps message_id) m

  replies_deep :
      (user_id : Text) (conv_id : Uuid) (history : List ChatMessage) (message : Text)
      → Whole (reply_deep deps user_id conv_id message_id history message)
  unfolding reply_deep
  replies_deep user_id conv_id history message =
      Triple-bind _ _ (starts deps message_id conv_id) λ _.
        Triple-bind _ _ (calls deps message_id running (now deps)) λ t0.
          Triple-bind _ _ (runs_deep user_id message) λ (hits, prewritten).
            Triple-bind _ _ (sets_sources deps message_id running t0 hits tt) λ _.
              Triple-bind _ _ (lists deps message_id) λ _.
                Triple-bind _ _ (clock_starts deps message_id)
                  λ _. Triple-bind _ _ (answers_deep history message prewritten) λ _. finishes

  replies_standard :
      (user_id : Text) (conv_id : Uuid) (history : List ChatMessage) (message : Text)
      → Whole (reply_standard deps user_id conv_id message_id history message)
  unfolding reply_standard
  replies_standard user_id conv_id history message =
      Triple-bind _ _ (calls deps message_id opening (now deps)) λ t0.
        Triple-bind _ _ (calls deps message_id opening _) λ query_embedding.
          Triple-bind _ _ (calls deps message_id opening _) λ pool.
            Triple-bind _ _ (calls deps message_id opening _) λ hits.
              Triple-bind _ _ (sets_sources deps message_id opening t0 hits tt) λ _.
                Triple-bind _ _ (starts deps message_id conv_id) λ _.
                  Triple-bind _ _ (lists deps message_id) λ _.
                    Triple-bind _ _ (clock_starts deps message_id)
                      λ _. Triple-bind _ _ (generates _) λ _. finishes

  pub replies :
      (mode : Mode) (user_id : Text) (conv_id : Uuid) (history : List ChatMessage) (message : Text)
      → Whole (reply deps mode user_id conv_id message_id history message)
  unfolding reply
  replies standard = replies_standard
  replies deep = replies_deep
