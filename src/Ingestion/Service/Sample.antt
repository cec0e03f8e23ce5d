-- ===== src/Ingestion/Service/Sample.antt =====
-- A service whose components run in tests, and one upload.
use sovereign_rag.Base.{ℕ, suc, ◌+◌, none, some, [], map, true, length}
use sovereign_rag.Text.{codes}
use sovereign_rag.Effects.{other_error, Outcome, ok, raised}
use sovereign_rag.Tables.{Tables}
use sovereign_rag.Tables.Session.{Server}
use sovereign_rag.Pgvector.Operations.{add_chunks}
use sovereign_rag.Ingestion.Service.State.{Upload, Service}
use sovereign_rag.Ingestion.Service.Prepare.{IngestDeps}

abbrev pub server : Server ℕ
server = record { statement = λ w. (ok tt, w); uuid = λ w. (w, suc w); now = λ w. (w, suc w) }

abbrev pub unread : {A : Type 0} → Outcome A
unread = raised (other_error (codes "unreadable"))

-- every server call goes through, a text is its own digest, and its vector is its length
abbrev pub deps : IngestDeps ℕ ℕ
deps = record {
  server = server;
  readers = record {
    decode_utf8 = λ bytes. some bytes;
    read_docx = λ bytes. unread;
    read_pdf = λ bytes. unread;
    str_of_fault = λ e. codes "fault";
  };
  sha256 = λ bytes. bytes;
  embedder_model = codes "e5";
  embedding_model = codes "e5";
  chunk_size = 40;
  chunk_overlap = 0;
  embed_documents = λ texts w. (ok (map length texts), w);
  add_chunks = λ id chunks. add_chunks server (λ v. true) (λ n. 100 + n) id chunks;
  str_of_fault = λ e. codes "fault";
  monotonic = λ w. (w, suc w);
  connect = λ w. (ok tt, w);
  recount = λ t. [];
}

abbrev pub up : Upload
up = record {
  filename = codes "a.txt";
  data_bytes = codes "One duty. Two duties.";
  content_type = codes "txt";
  owner_id = codes "ana";
}

abbrev pub empty : Tables ℕ
empty = record { documents = []; permissions = []; chunks = []; lexeme_df = []; audit_log = [] }

abbrev pub idle : Service ℕ ℕ
idle = record {
  site = record { world = 7; tables = empty };
  tasks = [];
  last_lexeme_refresh = none;
}
