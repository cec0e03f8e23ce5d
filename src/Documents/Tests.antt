-- ===== src/Documents/Tests.antt =====
-- The endpoints at small requests, and the theorems at them.
use sovereign_rag.Base.{
  select, sort_by, ap, ℕ, ◌≡◌, refl, inr, none, some, [], ◌∷◌, map, false, arith, Every, Every-take,
  Every-of, Every-sort_by,
}
use sovereign_rag.Text.{Text, codes, same_text, is_space}
use sovereign_rag.Effects.{ok, pure}
use sovereign_rag.Tables.{ready, document_of, visible_to}
use sovereign_rag.Auth.{User}
use sovereign_rag.Pgvector.Sample.{document, server_functions, search_settings, base}
use sovereign_rag.Pgvector.Operations
use sovereign_rag.Pgvector.Fusion.{search_rows}
use sovereign_rag.Ingestion.Service.State.{Service}
use sovereign_rag.Ingestion.Service.Sample.{server, deps, idle}
use sovereign_rag.Documents.{
  answer, refused, RouteDeps, FileUpload, owner_gate, valid_principal, listed_documents, listing,
  upload_document, list_permissions, grant_permission, revoke_permission, delete_document,
}
use sovereign_rag.Documents.Listing.{IsListing, IsListed, listing-IsListed}
use sovereign_rag.Documents.Owners.{Refuses, owners_only}
use sovereign_rag.Documents.Shares.{IsRoundTrip, grant-revoke}

abbrev routes : RouteDeps ℕ ℕ
routes = record {
  ingestion = deps;
  delete_document = Operations.delete_document server;
  max_upload_mb = 1;
}

abbrev ana : User
ana = record { id = codes "ana"; is_admin = false }

abbrev bob : User
bob = record { id = codes "bob"; is_admin = false }

abbrev serving_base : Service ℕ ℕ
serving_base = record idle { site = record { world = 0; tables = base } }

abbrev html_file : FileUpload
html_file = record { filename = some (codes "a.html"); content_length = none; data_bytes = [] }

upload_refused : (upload_document routes (λ t. t) html_file ana idle).0 ≡ ok (refused 422)
unfolding upload_document same_text pure
upload_refused = refl

abbrev long_file : FileUpload
long_file = record {
  filename = some (codes "a.txt");
  content_length = some (codes "2000000");
  data_bytes = [];
}

upload_too_long : (upload_document routes (λ t. t) long_file ana idle).0 ≡ ok (refused 413)
unfolding upload_document same_text pure
upload_too_long = refl

-- bob sees his own document, ana sees bob's and both of hers, the newest first
listed_ids : map (λ d. d.id) (listed_documents ana base) ≡ 3 ∷ 2 ∷ 1 ∷ []
unfolding listed_documents visible_to same_text sort_by
listed_ids = refl

listing-IsListed_example :
    IsListing (codes "bob") base (listed_documents bob base)
    × Every
        (IsListed (codes "bob") base (listing bob base))
        (search_rows server_functions search_settings base (codes "the leave") 6 (codes "bob") 8)
listing-IsListed_example =
    listing-IsListed server_functions search_settings
      (λ v n w rows. Every-take _ n _ (Every-sort_by _ _ _ (Every-of _ (select w rows) (λ p i. i))))
      base (codes "bob") (codes "the leave") 6 8

abbrev first_code : Text → ℕ
first_code [] = 0
first_code (c ∷ s) = c

ana_ne_bob : codes "ana" ≡ codes "bob" → ⊥
ana_ne_bob e = omega (arith, ap first_code e)

owners_only_example :
    Refuses routes serving_base 403 (list_permissions routes 1 bob)
    × Refuses routes serving_base 403 (grant_permission routes 1 (codes "eve") bob)
    × Refuses routes serving_base 403 (revoke_permission routes 1 (codes "eve") bob)
    × Refuses routes serving_base 403 (delete_document routes 1 bob)
unfolding document_of valid_principal is_space
owners_only_example =
    owners_only routes serving_base 1 bob 403 (inr (_, refl, (λ e. ana_ne_bob e), refl, refl))
      (codes "eve")

grant-revoke_example :
    let (r1, s1) = grant_permission routes 1 (codes "eve") ana serving_base in
    let (r2, s2) = revoke_permission routes 1 (codes "eve") ana s1 in
    (r1 ≡ ok (answer 204 tt))
    × (r2 ≡ ok (answer 204 tt))
    × IsRoundTrip routes 1 (codes "eve") ana serving_base s1 s2
unfolding document_of valid_principal is_space owner_gate same_text
grant-revoke_example =
    grant-revoke routes (λ w. refl) 1 (codes "eve") ana serving_base
      (document 1 "a.txt" ready "ana") refl refl refl refl
