-- ===== src/Lib.antt =====
-- The backend of sovereign-rag, modelled file by file. All paths below are from the repository's
-- root; the code stands under backend/src/sovereign_rag/.
--
-- The program answers questions about a document base. Ingestion turns an uploaded file into
-- fragments, the fragments into chunks, and stores the chunks with their vectors. A chat turn
-- retrieves chunks (vector and lexical search, then a reranker), builds a prompt, streams the
-- model's answer as events to the client, and persists one row for the audit. In deep mode the turn
-- runs a graph of language-model nodes first: plan, search, write, verify, and repairs under three
-- budgets. A compliance audit runs a second graph over the requirements of a regulation.
--
-- How the parts are modelled:
--   Base, Text        lists and numbers, and Python's str as a list of code points
--   Effects, Faults   calls that return or raise and change the world (`Run`), the part of the
--                     exception hierarchy that the except clauses tell apart (errors.py), and rules
--                     for how an action may end
--   Llm               llm/base.py: messages, streamed chunks, collect; a stream is the list of its
--                     chunks, ended or failed
--   Store             store/base.py, reranking/base.py, embeddings/base.py: the contracts of the
--                     retrieval components, as records of operations
--   Json              json values and _json_payload of the two agent graphs
--   Tables            the tables of the document base, the audit trail, and the rule who may see a
--                     document (the SQL that store/pgvector.py, ingestion/service.py and
--                     routes/documents.py share; migrations/); Session: a connection, whose
--                     statements are committed together or not at all
--   Pgvector          store/pgvector.py. Terms, Legs, Fusion: the common table expressions of the one
--                     query and its last SELECT; Operations: add_chunks, delete_document,
--                     hybrid_search, healthcheck
--   Paths             the suffix of a file name, and its content type
--   Documents         routes/documents.py, with audit.py and the models of schemas.py it uses: the six
--                     endpoints as functions of the request, the user and the service
--   Deep              agents/state.py and agents/graph.py. State: DeepState; Nodes: the functions
--                     inside build_deep_graph (plan, search, write, verify, before_search_repair,
--                     before_write_repair, before_replan, deliver, abstain); Route: route; Graph: the
--                     edges, and ainvoke as `invoke` under a limit on the nodes that run
--   Chat              chat/prompts.py and chat/service.py. Session: events, variables and
--                     surroundings; Database: the five statements on two tables; Body: the try of
--                     stream_reply and _run_deep; Service: the except clauses, the finally with its
--                     shielded insert, _resolve_conversation and stream_reply. Transcript reads the
--                     events; Triple has the rules for claims on events and variables
--   Ingestion         Extract: ingestion/extract.py. Headings: splitlines, _MD_HEADING, the stack,
--                     _section and _heading_level; Formats: extract and its four extractors.
--                     Chunking: ingestion/chunking.py. Units: _atomic_units; Tail: _overlap_tail;
--                     Pack: _pack; Split: _split_markdown, _split_plain, chunk_fragments.
--                     Service: ingestion/service.py. Prepare: _process up to the chunks; Uploads:
--                     ingest_upload; Process: the stages of _process, refresh_lexeme_stats, and the
--                     sweep of main.py; Seed: wait_idle and seed_demo; Steps: what may happen to the
--                     tables and the tasks, in any order
--   Compliance        agents/compliance.py: cartographer, investigate_and_judge, reporter and their
--                     run in a line
--   Audits            audits.py. State: the rows of audits and the statements on them; Service:
--                     launch, resume_interrupted and _run as `run_audit`, with its callbacks and its
--                     handlers; Sure has the rules for claims on the rows
--   Reranking         reranking/local.py: rerank of LocalCrossEncoderReranker
--   Auth              auth.py: ApiKeyAuth.authenticate, get_current_user, require_admin
--   Redaction         redaction.py. Patterns: regular expressions and their greedy backtracking search;
--                     the parent: _RULES and redact_patterns; Language: guess_language; Names: `run` of
--                     _build_ner_redactor, create_redactor; Client: RedactingLLMClient of
--                     llm/redacting.py. Matches says what a pattern matches without a search, and Masked
--                     that the rounds of the replacement are enough
--   Providers         llm/ollama.py (Ollama), llm/openai_compat.py and llm/azure.py (Sdk: their loops have
--                     the same text), and the constructors with llm/__init__.py (Factory). A stream of
--                     the libraries is the list of its lines or chunks, closed or broken by an exception.
--                     RawChunk is a chunk as Python makes it, whatever the types of its fields, and
--                     collect_raw is collect over such chunks; raw_of has the typed chunks of Llm among
--                     them
--   Embeddings        embeddings/local.py and embeddings/azure.py: prefixes, batches, and their calls
--   Migrations        db.py: apply_migrations; Parts: what a run has applied, Runs: a run and the next
--
-- The client, the clock and the event loop are part of the world of a chat turn: when an event is
-- yielded or an await goes on, the world says whether the client is still there, and if not the
-- cancellation is raised at that point. The graph's task of _run_deep gets nothing back from the
-- client, so it runs to its end before its queue is read. The database serves one turn, or one
-- audit, at a time.
--
-- Bounds. The nodes of a deep run are counted by the limit of `invoke`, and 24 of them are enough,
-- below the default of 25 of the graph library. `cuts` runs on the number of characters left, and
-- `decimal` on the number itself; each is at least the number of rounds. Numbers are natural
-- numbers, as Python's integers do not wrap; a negative chunk overlap acts as 0.
--
-- The document base is shared. Uploads, tasks, deletions, shares and restarts are steps on its tables
-- and on the list of tasks; an upload's first read and what follows it are apart, so that other steps
-- may come between. A task's stages up to its chunks write nothing and are one step.
--
-- Parameters: what json.loads returns and the text of numbers and containers (JsonModule), the
-- model, the embedder, the store and the reranker (DeepDeps, ChatDeps, AuditDeps, JobDeps), the
-- clock, the identifiers, whether a statement of the database runs, what pypdf, python-docx and the
-- UTF-8 codec read (Readers), the functions of the database server (Postgres, Server: lexemes, text
-- queries, ranks, the vector index, score arithmetic, identifiers and times), the scores of the
-- cross-encoder (LocalReranker), the character database (UnicodeData), the analyzer of names,
-- httpx, the openai SDK and azure-identity (Network, AzureEmbedding), sentence-transformers
-- (LocalEmbedding), and what the SQL of a migration does. Where a theorem relies on them, it takes
-- a record of what they may raise or return (Deep.Contract.DepsEnd, Compliance.Judged.AuditDepsEnd,
-- Providers.Contract.NetworkRaises, Embeddings.Batches.Answers).
--
-- Rounds. `sub` has as many rounds as the text has characters, and embedding as many as there are
-- texts; a match takes at least one character and a batch at least one text.
--
-- Not modelled: the chat, audit, admin and health routes, OIDC (auth_oidc.py), configuration, the
-- set-up of the application (main.py but for the sweep, the pool of db.py), log calls, the
-- benchmarks, and the frontend.
pub mod Base
pub mod Text
pub mod Effects
pub mod Llm
pub mod Store
pub mod Json
pub mod Faults
pub mod Tables
pub mod Pgvector
pub mod Paths
pub mod Documents
pub mod Deep
pub mod Ingestion
pub mod Chat
pub mod Compliance
pub mod Audits
pub mod Reranking
pub mod Auth
pub mod Redaction
pub mod Providers
pub mod Embeddings
pub mod Migrations
