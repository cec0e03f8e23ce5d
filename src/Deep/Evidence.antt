-- ===== src/Deep/Evidence.antt =====
-- The pool that `search` builds holds no chunk twice, and keeps what was there
-- (backend/src/sovereign_rag/agents/graph.py, `search`).
use mathlib.Core.List.{foldl}
use sovereign_rag.Base.{
  ℕ, zero, suc, ◌≢◌, List, [], ◌∷◌, arith, ◌==◌, ==_iff, Bool-cases, inl, inr, take, Every,
  Every-take,
}
use sovereign_rag.Store.{SearchHit, Uuid}
use sovereign_rag.Deep.Nodes.{put_hit, set_default, pool_of, add_hits}

module _ {Score : Type 0} where
  abbrev pub IsAbsent : Uuid → List (SearchHit Score) → Type 0
  IsAbsent id hits = Every (λ h. h.chunk_id ≢ id) hits

  -- no two hits of one chunk
  abbrev pub IsDistinct : List (SearchHit Score) → Type 0
  IsDistinct [] = Unit
  IsDistinct (h ∷ hits) = IsAbsent h.chunk_id hits × IsDistinct hits

  IsAbsent-put_hit :
      (id : Uuid) (pool : List (SearchHit Score)) (hit : SearchHit Score)
      → IsAbsent id pool
      → hit.chunk_id ≢ id
      → IsAbsent id (put_hit pool hit)
  unfolding put_hit
  IsAbsent-put_hit id [] hit a n = (n, tt)
  IsAbsent-put_hit id (x ∷ pool) hit a n = elim (Bool-cases (x.chunk_id == hit.chunk_id)) [
    | inl e ↦ rw e (n, a.1)
    | inr e ↦ rw e (a.0, IsAbsent-put_hit id pool hit a.1 n)
  ]

  IsDistinct-put_hit :
      (pool : List (SearchHit Score)) (hit : SearchHit Score)
      → IsDistinct pool
      → IsDistinct (put_hit pool hit)
  unfolding put_hit
  IsDistinct-put_hit [] hit d = (tt, tt)
  IsDistinct-put_hit (x ∷ pool) hit d = elim (Bool-cases (x.chunk_id == hit.chunk_id)) [
    | inl e ↦ rw e (rw (← (==_iff x.chunk_id hit.chunk_id).0 e) d.0, d.1)
    | inr e ↦ rw e (
      IsAbsent-put_hit x.chunk_id pool hit d.0 (ground (arith, ==_iff x.chunk_id hit.chunk_id)),
      IsDistinct-put_hit pool hit d.1,
    )
  ]

  IsAbsent-set_default :
      (id : Uuid) (pool : List (SearchHit Score)) (hit : SearchHit Score)
      → IsAbsent id pool
      → hit.chunk_id ≢ id
      → IsAbsent id (set_default pool hit)
  unfolding set_default
  IsAbsent-set_default id [] hit a n = (n, tt)
  IsAbsent-set_default id (x ∷ pool) hit a n = elim (Bool-cases (x.chunk_id == hit.chunk_id)) [
    | inl e ↦ rw e a
    | inr e ↦ rw e (a.0, IsAbsent-set_default id pool hit a.1 n)
  ]

  IsDistinct-set_default :
      (pool : List (SearchHit Score)) (hit : SearchHit Score)
      → IsDistinct pool
      → IsDistinct (set_default pool hit)
  unfolding set_default
  IsDistinct-set_default [] hit d = (tt, tt)
  IsDistinct-set_default (x ∷ pool) hit d = elim (Bool-cases (x.chunk_id == hit.chunk_id)) [
    | inl e ↦ rw e d
    | inr e ↦ rw e (
      IsAbsent-set_default x.chunk_id pool hit d.0 (ground (arith, ==_iff x.chunk_id hit.chunk_id)),
      IsDistinct-set_default pool hit d.1,
    )
  ]

  IsDistinct-foldl :
      (add : List (SearchHit Score) → SearchHit Score → List (SearchHit Score))
      → ((pool : List (SearchHit Score)) (h : SearchHit Score)
          → IsDistinct pool
          → IsDistinct (add pool h))
      → (hits pool : List (SearchHit Score)) → IsDistinct pool
      → IsDistinct (foldl add pool hits)
  IsDistinct-foldl add keep [] pool d = d
  IsDistinct-foldl add keep (h ∷ hits) pool d =
      IsDistinct-foldl add keep hits (add pool h) (keep pool h d)

  pub pool_of-IsDistinct : (hits : List (SearchHit Score)) → IsDistinct (pool_of hits)
  unfolding pool_of
  pool_of-IsDistinct hits = IsDistinct-foldl put_hit IsDistinct-put_hit hits [] tt

  pub add_hits-IsDistinct :
      (pool hits : List (SearchHit Score)) → IsDistinct pool → IsDistinct (add_hits pool hits)
  unfolding add_hits
  add_hits-IsDistinct pool hits d = IsDistinct-foldl set_default IsDistinct-set_default hits pool d

  pub take-IsDistinct :
      (n : ℕ) (hits : List (SearchHit Score)) → IsDistinct hits → IsDistinct (take n hits)
  take-IsDistinct zero hits d = tt
  take-IsDistinct (suc n) [] d = tt
  take-IsDistinct (suc n) (h ∷ hits) d =
      (Every-take (λ x. x.chunk_id ≢ h.chunk_id) n hits d.0, take-IsDistinct n hits d.1)
