-- ===== src/Pgvector/Sample.antt =====
-- A small document base, and a server whose functions run in tests.
use Prim.Native.String.{String}
use sovereign_rag.Base.{
  select, ℕ, ◌+◌, ◌-◌, ◌*◌, ◌/◌, none, List, [], ◌∷◌, ◌++◌, Bool, true, false, ltb, leb, ◌==◌,
  if◌then◌else◌, take, length, exists_in, sort_by,
}
use sovereign_rag.Text.{Text, codes, same_text}
use sovereign_rag.Store.{Uuid}
use sovereign_rag.Tables.{Document, DocumentStatus, processing, ready, Chunk, Tables}
use sovereign_rag.Pgvector.{Passage, Postgres}
use sovereign_rag.Pgvector.Fusion.{SearchSettings}

abbrev pub spread : ℕ → ℕ → ℕ
spread a b = (a - b) + (b - a)

-- a word matches the text that it begins
abbrev pub begins : Text → Text → Bool
begins [] t = true
begins (c ∷ w) [] = false
begins (c ∷ w) (d ∷ t) = if c == d then begins w t else false

abbrev pub farther : ℕ → Passage ℕ → Passage ℕ → Bool
farther v p q = ltb (spread v q.chunk.embedding) (spread v p.chunk.embedding)

-- vectors are numbers, a query is the words that may begin a text, and scores are in millionths
abbrev pub server_functions : Postgres ℕ (List Text) ℕ ℕ
server_functions = record {
  lower = λ t. t;
  is_alnum = λ c. leb 97 c;
  distinct = λ ts. ts;
  lexemes = λ c t. if same_text t (codes "the") then [] else t ∷ [];
  share = λ n. n * 15 / 100;
  plainto_tsquery = λ c t. t ∷ [];
  websearch_to_tsquery = λ c t. t ∷ [];
  either = λ p q. p ++ q;
  matches = λ t q. exists_in (λ w. begins w t) q;
  ts_rank_cd = λ t q. length t;
  rank_below = ltb;
  reaches_floor = λ r m. leb (6 * m) (10 * r);
  nearest = λ v n where_holds rows. take n (sort_by (farther v) (select where_holds rows));
  reciprocal = λ n. 1_000_000 / n;
  weighted = λ n. 1_000_000 / n;
  nothing = 0;
  plus = λ a b. a + b;
  score_below = ltb;
}

abbrev pub search_settings : SearchSettings
search_settings = record { candidates = 40; rrf_k = 60; per_document_cap = 1 }

abbrev pub document : Uuid → String → DocumentStatus → String → Document
document id name status owner = record {
  id = id;
  filename = codes name;
  content_type = codes "txt";
  sha256 = codes name;
  size_bytes = 10;
  status = status;
  error = none;
  owner_id = codes owner;
  meta = [];
  created_at = id;
}

abbrev pub chunk : Uuid → Uuid → ℕ → String → ℕ → Chunk ℕ
chunk id document_id index content v = record {
  id = id;
  document_id = document_id;
  chunk_index = index;
  content = codes content;
  section = none;
  page = none;
  embedding = v;
}

abbrev pub base : Tables ℕ
base = record {
  documents =
      document 1 "a.txt" ready "ana"
      ∷ document 2 "b.txt" ready "bob"
      ∷ document 3 "c.txt" processing "ana"
      ∷ [];
  permissions =
      record { document_id = 2; principal = codes "*"; granted_by = codes "bob"; granted_at = 0 }
      ∷ [];
  chunks =
      chunk 10 1 0 "leave of absence" 5 ∷ chunk 11 1 1 "notice" 6 ∷ chunk 20 2 0 "leave" 9 ∷ [];
  lexeme_df = [];
  audit_log = [];
}
