-- ===== src/Pgvector/Tests.antt =====
-- Two ready documents and one in processing: runs of the query, and the theorems at them.
use sovereign_rag.Pgvector.Sample.{server_functions, search_settings, base, farther}
use sovereign_rag.Base.{
  select, ℕ, ◌+◌, ◌≡◌, refl, Option, none, some, List, [], ◌∷◌, map, true, arith, Every, Every-take,
  Every-of, Every-sort_by, IsTotal, sort_by, IsKeyed, take-IsKeyed, sort_by-IsKeyed,
}
use sovereign_rag.Text.{codes, same_text, join}
use sovereign_rag.Effects.{ok}
use sovereign_rag.Store.{ChunkIn}
use sovereign_rag.Tables.{document_of, visible_to}
use sovereign_rag.Tables.Session.{Site, Server}
use sovereign_rag.Pgvector.Terms.{terms}
use sovereign_rag.Pgvector.Legs.{retrievable}
use sovereign_rag.Pgvector.Fusion.{search_rows, score_behind}
use sovereign_rag.Pgvector.Retrieved.{ScansRows, IsRetrieved, search_rows-IsRetrieved}
use sovereign_rag.Pgvector.Best.{IsPage, search_rows-IsPage}
use sovereign_rag.Pgvector.Operations.{add_chunks}
use sovereign_rag.Pgvector.Hidden.{IsHidden, FindsAsBefore, AllOrNothing, add_chunks-IsHidden}

-- the stoplist, a word of one letter and a stopword are left out
terms_run :
    terms server_functions [] (codes "what is the leave x") ≡ codes "is" ∷ codes "leave" ∷ []
unfolding terms same_text
terms_run = refl

-- ana sees one chunk of each ready document; bob does not see ana's
ana_run :
    map {B = ℕ × Option ℕ × Option ℕ}
      (λ h. (h.chunk_id, h.vec_rank, h.fts_rank))
      (search_rows server_functions search_settings base (codes "the leave") 6 (codes "ana") 8)
    ≡ (10, some 2, some 1) ∷ (20, some 3, some 2) ∷ []
unfolding search_rows same_text sort_by document_of visible_to join
ana_run = refl

bob_run :
    map
      (λ h. h.chunk_id)
      (search_rows server_functions search_settings base (codes "the leave") 6 (codes "bob") 8)
    ≡ 20 ∷ []
unfolding search_rows same_text sort_by document_of visible_to join
bob_run = refl

ltb-IsTotal : IsTotal (score_behind server_functions search_settings)
ltb-IsTotal = record { asym = λ a b h. ground arith; trans = λ a b c h k. ground arith }

base-IsKeyed : IsKeyed (λ c. c.id) base.chunks
base-IsKeyed = ((λ e. omega arith, (λ e. omega arith, tt)), ((λ e. omega arith, tt), (tt, tt)))

search_rows-IsRetrieved_example :
    Every
      (IsRetrieved (codes "bob") base)
      (search_rows server_functions search_settings base (codes "the leave") 6 (codes "bob") 8)
search_rows-IsRetrieved_example =
    search_rows-IsRetrieved server_functions search_settings
      (λ v n w rows. Every-take _ n _ (Every-sort_by _ _ _ (Every-of _ (select w rows) (λ p i. i))))
      base (codes "the leave") 6 (codes "bob") 8

search_rows-IsPage_example :
    IsPage server_functions search_settings 8
      (search_rows server_functions search_settings base (codes "the leave") 6 (codes "ana") 8)
search_rows-IsPage_example =
    search_rows-IsPage server_functions search_settings ltb-IsTotal
      (λ v n w rows k. take-IsKeyed _ n _ (sort_by-IsKeyed _ (farther v) (select w rows) k)) base
      (codes "the leave") 6 (codes "ana") 8 base-IsKeyed

abbrev server : Server (Unit {0})
server = record { statement = λ w. (ok tt, w); uuid = λ w. (7, w); now = λ w. (0, w) }

abbrev site : Site (Unit {0}) ℕ
site = record { world = tt; tables = base }

abbrev batch : List (ChunkIn ℕ)
batch =
    record {
      chunk_index = 0;
      content = codes "leave now";
      embedding = 6;
      section = none;
      page = none;
    }
    ∷ []

processing-IsHidden : IsHidden (codes "ana") 3 base
unfolding document_of retrievable
processing-IsHidden c d e = ground arith

sample-ScansRows : ScansRows server_functions search_settings
sample-ScansRows v n w rows =
    Every-take _ n _ (Every-sort_by _ _ _ (Every-of _ (select w rows) (λ p i. i)))

add_chunks-IsHidden_example :
    let (r, s') = add_chunks server (λ v. true) (λ n. 30 + n) 3 batch site in
    AllOrNothing server (λ v. true) (λ n. 30 + n) 3 batch site (r, s')
    × FindsAsBefore server
        (λ v. true)
        (λ n. 30 + n)
        server_functions
        search_settings
        (codes "ana")
        base
        s'.tables
add_chunks-IsHidden_example =
    add_chunks-IsHidden server (λ v. true) (λ n. 30 + n) server_functions search_settings
      sample-ScansRows (codes "ana") 3 batch site processing-IsHidden
