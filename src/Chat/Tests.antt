-- ===== src/Chat/Tests.antt =====
-- A chat turn with a scripted model. The world is the client's patience: how many events it
-- receives before it goes away.
use sovereign_rag.Base.{ℕ, zero, suc, ◌≡◌, refl, Bool, true, false, none, some, [], ◌∷◌}
use sovereign_rag.Text.{Text, codes, same_text}
use sovereign_rag.Effects.{Outcome, raised, cancelled, provider_error, pure, ◌>>=◌}
use sovereign_rag.Llm.{ChunkStream, finished, failed, chunk}
use sovereign_rag.Chat.Session.{
  start, sources, delta, done, error, standard, deep, ChatDeps, new_turn,
}
use sovereign_rag.Chat.Database.{user_row, assistant_row, Database, select_owner}
use sovereign_rag.Chat.Body.{
  answer_deep, reply, reply_standard, tell_delta, tell, start_clock, list_sources, finish, generate,
  read_stream, set_sources,
}
use sovereign_rag.Chat.Prompts.{build_messages, hits_to_sources}
use sovereign_rag.Chat.Session.{yield_event, on_world, assign, reads, now}
use sovereign_rag.Llm.{keep_tokens}
use sovereign_rag.Chat.Database.{select_history, insert_message}
use sovereign_rag.Chat.Service.{guarded, handle_fault, current_request_id, resolve_conversation}
use sovereign_rag.Chat.Service.{Session, stream_reply}
use sovereign_rag.Chat.Triple.{Triple}
use sovereign_rag.Chat.Audit.{IsAudited, stream_reply-IsAudited}
use sovereign_rag.Chat.Access.{IsRefused, stream_reply-IsRefused}
use sovereign_rag.Chat.Verbatim.{Has, HasPart, answer_deep-Has}

receive : ℕ → Bool × ℕ
receive zero = (false, zero)
receive (suc n) = (true, n)

piece : Text → ChunkStream → ChunkStream
piece t rest = chunk (record { delta = t; prompt_tokens = some 5; completion_tokens = none }) rest

-- two pieces, then the end or a failure of the provider
spoken : Bool → ChunkStream
unfolding piece
spoken true = piece (codes "Yes, ") (piece (codes "it is.") finished)
spoken false = piece (codes "Yes, ") (failed (provider_error (codes "down")))

scripted : Bool → ChatDeps ℕ ℕ ℕ ℕ
unfolding receive spoken
scripted healthy = record {
  llm = record { stream_chat = λ messages w. (spoken healthy, w) };
  embedder = record { embed_query = λ q. pure 0 };
  store = record { hybrid_search = λ q v user k. pure [] };
  reranker = none;
  json = record { loads = λ s. none; repr = λ v. [] };
  retrieval_top_k = 6;
  reranker_candidates = 30;
  model = codes "ollama/qwen3";
  recursion_limit = 25;
  perf_counter = λ w. (3, w);
  elapsed_ms = λ t0 t1. 0;
  uuid4 = λ w. (77, w);
  bound_request_id = λ w. none;
  parse_uuid = λ s. none;
  receive = λ e w. receive w;
  wait = λ w. (true, w);
  statement = pure tt;
}

abbrev one_owner : Database ℕ
one_owner = record {
  conversations = record { id = 1; user_id = codes "alice"; title = codes "hi" } ∷ [];
  messages = [];
}

stream_reply-IsAudited_example : IsAudited one_owner (codes "Is it?") (
    stream_reply
      (scripted true)
      (codes "alice")
      (some 1)
      (codes "Is it?")
      standard
      (record { world = 3; database = one_owner; sent = [] }))
stream_reply-IsAudited_example =
    stream_reply-IsAudited (scripted true) one_owner (codes "Is it?") (codes "alice") (some 1)
      standard 3

stream_reply-IsRefused_example : IsRefused ((scripted true).statement 3).0 one_owner (
    stream_reply
      (scripted true)
      (codes "bob")
      (some 1)
      (codes "Is it?")
      deep
      (record { world = 3; database = one_owner; sent = [] }))
unfolding select_owner same_text
stream_reply-IsRefused_example =
    stream_reply-IsRefused (scripted true) (codes "bob") 1 (codes "Is it?") deep 3 one_owner refl

answer_deep-Has_example :
    Triple
      (Has [])
      (λ _. Has (codes "A verified draft."))
      (HasPart (codes "A verified draft."))
      (answer_deep (scripted true) [] (codes "Is it?") (some (codes "A verified draft.")))
answer_deep-Has_example =
    answer_deep-Has (scripted true) [] (codes "Is it?") [] (codes "A verified draft.")

abbrev reply_of : Bool → ℕ → Outcome (Unit {0}) × Session ℕ ℕ
reply_of healthy patience =
    stream_reply (scripted healthy) (codes "alice") (some 1) (codes "Is it?") standard
      (record { world = patience; database = one_owner; sent = [] })

-- a whole turn; the client gone at the second piece, which the row keeps; the provider down
scripted_turns :
    ((reply_of true 9).1.sent
      ≡ start 1
        ∷ sources []
        ∷ delta (codes "Yes, ")
        ∷ delta (codes "it is.")
        ∷ done 77 (some 5) none (some 0) (some 0)
        ∷ [])
    × ((reply_of true 3).0 ≡ raised cancelled)
    × ((reply_of true 3).1.database.messages
        ≡ assistant_row (record {
          id = 77;
          conversation_id = 1;
          request_id = 77;
          content = codes "Yes, it is.";
          sources = [];
          model = codes "ollama/qwen3";
          prompt_tokens = some 5;
          completion_tokens = none;
          retrieval_ms = some 0;
          generation_ms = some 0;
          error_code = some (codes "client_disconnect");
        })
          ∷ user_row 1 77 (codes "Is it?")
          ∷ [])
    × ((reply_of false 9).1.sent
        ≡ start 1
          ∷ sources []
          ∷ delta (codes "Yes, ")
          ∷ error (codes "provider_error") (codes "down")
          ∷ [])
unfolding stream_reply scripted piece reply tell_delta tell yield_event on_world assign reads now
    keep_tokens build_messages hits_to_sources start_clock list_sources finish generate read_stream
    guarded handle_fault same_text select_owner select_history insert_message current_request_id
    resolve_conversation reply_standard set_sources ◌>>=◌ new_turn
scripted_turns = (refl, refl, refl, refl)
