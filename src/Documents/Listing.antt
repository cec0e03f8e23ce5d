-- ===== src/Documents/Listing.antt =====
-- A user's listing is what the user may see, and holds whatever a search finds
-- (backend/src/sovereign_rag/routes/documents.py and
-- backend/src/sovereign_rag/store/pgvector.py).
use sovereign_rag.Base.{
  ap, Every-weaken, ℕ, ◌≡◌, sym, inl, inr, none, some, List, [], ◌∷◌, map, Bool, false, ltb, length,
  arith, select, Every, Every-of, IsIn, IsTotal, IsOrdered, sort_by-IsOrdered, Every-sort_by,
  IsIn-sort_by,
}
use sovereign_rag.Text.{Text}
use sovereign_rag.Store.{SearchHit}
use sovereign_rag.Tables.{Document, ready, Tables, visible_to, chunks_of}
use sovereign_rag.Tables.Rows.{
  MaySee, visible_to-MaySee, MaySee-visible_to, select-IsIn, IsIn-select,
}
use sovereign_rag.Auth.{User}
use sovereign_rag.Pgvector.{Postgres}
use sovereign_rag.Pgvector.Fusion.{SearchSettings, search_rows}
use sovereign_rag.Pgvector.Retrieved.{IsRetrieved, ScansRows, search_rows-IsRetrieved}
use sovereign_rag.Documents.{DocumentOut, document_out, listed_documents, listing}

abbrev pub is_older : Document → Document → Bool
is_older a b = ltb a.created_at b.created_at

is_older-IsTotal : IsTotal is_older
is_older-IsTotal = record { asym = λ a b h. ground arith; trans = λ a b c h k. ground arith }

module _ {Vector : Type 0} (user_id : Text) (t : Tables Vector) where
  -- exactly the documents that the user may see, the newest first
  pub record IsListing (documents : List Document) : Type 0 where
    pub sound : Every (λ d. IsIn d t.documents × MaySee user_id t.permissions d) documents
    pub complete :
        (d : Document) → IsIn d t.documents → MaySee user_id t.permissions d → IsIn d documents
    pub newest_first : IsOrdered is_older documents

  -- the document of the hit, as it is listed
  pub record IsListed {Score : Type 0} (rows : List DocumentOut) (h : SearchHit Score)
      : Type 0 where
    pub row : DocumentOut
    pub listed : IsIn row rows
    pub named : row.id ≡ h.document_id
    pub titled : row.filename ≡ h.filename
    pub usable : row.status ≡ ready

module _ {Vector : Type 0} (id : Text) (t : Tables Vector) where
  listed_documents-IsListing :
      IsListing id t (listed_documents (record { id = id; is_admin = false }) t)
  unfolding listed_documents
  listed_documents-IsListing =
      let mine = select (visible_to id t.permissions) t.documents in
      record {
        sound = Every-sort_by is_older _ mine (
            Every-of _ mine λ d i.
              let (stored, seen) = select-IsIn (visible_to id t.permissions) d t.documents i in
              (stored, visible_to-MaySee id t.permissions d seen));
        complete = λ d stored see. IsIn-sort_by is_older d mine (
            IsIn-select (visible_to id t.permissions) d t.documents stored
              (MaySee-visible_to id t.permissions d see));
        newest_first = sort_by-IsOrdered is_older is_older-IsTotal mine;
      }

IsIn-map : {A B : Type 0} (f : A → B) (a : A) (xs : List A) → IsIn a xs → IsIn (f a) (map f xs)
IsIn-map f a [] i = absurd i
IsIn-map f a (x ∷ xs) (inl e) = inl (ap f e)
IsIn-map f a (x ∷ xs) (inr i) = inr (IsIn-map f a xs i)

module _ {Vector Query Rank Score : Type 0} (pg : Postgres Vector Query Rank Score)
    (settings : SearchSettings) (scans : ScansRows pg settings) (t : Tables Vector)
    (id : Text) where
  abbrev someone : User
  someone = record { id = id; is_admin = false }

  retrieved-IsListed :
      (h : SearchHit Score) → IsRetrieved id t h → IsListed id t (listing someone t) h
  unfolding listing
  retrieved-IsListed h r =
      let d = r.passage.document in
      record {
        row = document_out none (some (length (chunks_of d.id t.chunks))) d;
        listed = IsIn-map _ d _ (
            (listed_documents-IsListing id t).complete d r.candidate.document_stored
              r.candidate.may_see);
        named = sym r.document_named;
        titled = sym r.file_named;
        usable = r.candidate.is_complete;
      }

  -- For a user who is no admin, the listing holds exactly the documents that the user owns or has
  -- been granted, the newest first. Let the vector index return rows for which the condition of
  -- the query holds: then the document of every hit of a search by that user is in the listing,
  -- as ready and under the name that the hit shows.
  pub listing-IsListed :
      (query_text : Text) (qvec : Vector) (k : ℕ)
      → IsListing id t (listed_documents someone t)
        × Every (IsListed id t (listing someone t)) (search_rows pg settings t query_text qvec id k)
  listing-IsListed query_text qvec k = (
    listed_documents-IsListing id t,
    Every-weaken _ _ retrieved-IsListed _
        (search_rows-IsRetrieved pg settings scans t query_text qvec id k),
  )
