-- ===== src/Compliance/Grounded.antt =====
-- Each finding rests on passages of other documents, and cites nothing else
-- (backend/src/sovereign_rag/agents/compliance.py).
use sovereign_rag.Base.{
  ◌⊎◌, Bool, true, subst, ap, Every-of, Every-weaken, ℕ, zero, suc, ◌≤◌, ◌<◌, ◌≡◌, refl, inl, inr,
  List, [], ◌∷◌, map, arith, false, not, Bool-cases, ◌==◌, is_empty, length, take, select,
  get_elem?, length-take, Every, Every-append, Every-take, IsIn,
}
use sovereign_rag.Tables.Rows.{select-IsIn}
use sovereign_rag.Store.{Uuid, SearchHit}
use sovereign_rag.Compliance.State.{
  Requirement, Evidence, Verdict, compliant, gap, indeterminate, Finding, evidence_k,
}
use sovereign_rag.Compliance.Reading.{Judgement, ruled, others, cite, evidence_of, finding_of}

module _ {Score : Type 0} where
  -- the part of a hit that a finding cites
  abbrev pub excerpt_of : SearchHit Score → Evidence
  excerpt_of hit = record { filename = hit.filename; excerpt = take 300 hit.content }

  -- The finding rests on at most six of the hits that were found, none of the regulation itself, and
  -- on all of those that are not of it, unless there are six; it is compliant only if there is one,
  -- and cites nothing else.
  pub record IsGrounded (regulation_id : Uuid) (r : Requirement) (f : Finding)
      (found hits : List (SearchHit Score)) : Type 0 where
    pub same_ref : f.ref ≡ r.ref
    pub drawn : Every (λ h. IsIn h found) hits
    pub filled :
        Every
          (λ h. (h.document_id == regulation_id) ≡ false → IsIn h hits ⊎ (length hits ≡ evidence_k))
          found
    pub few : length hits ≤ evidence_k
    pub foreign : Every (λ h. (h.document_id == regulation_id) ≡ false) hits
    pub backed : f.verdict ≡ compliant → 0 < length hits
    pub cited : Every (λ e. IsIn e (map excerpt_of hits)) f.evidence

  select-foreign :
      (regulation_id : Uuid) (hits : List (SearchHit Score))
      → Every
          (λ h. (h.document_id == regulation_id) ≡ false)
          (select (λ h. not (h.document_id == regulation_id)) hits)
  select-foreign regulation_id [] = tt
  select-foreign regulation_id (h ∷ hits) = elim (Bool-cases (h.document_id == regulation_id)) [
    | inl e ↦ rw e (select-foreign regulation_id hits)
    | inr e ↦ rw e (e, select-foreign regulation_id hits)
  ]

  IsIn-select :
      (test : SearchHit Score → Bool) (h : SearchHit Score) (hits : List (SearchHit Score))
      → IsIn h hits
      → test h ≡ true
      → IsIn h (select test hits)
  IsIn-select test h [] i e = absurd i
  IsIn-select test h (x ∷ hits) (inl q) e =
      let same : test x ≡ true = subst (λ y. test y ≡ true) q e in rw same (inl q)
  IsIn-select test h (x ∷ hits) (inr i) e = elim (Bool-cases (test x)) [
    | inl t ↦ rw t (inr (IsIn-select test h hits i e))
    | inr t ↦ rw t (IsIn-select test h hits i e)
  ]

  -- a member is taken, or the rows before it are as many as asked for
  take-IsIn :
      (h : SearchHit Score) (n : ℕ) (hits : List (SearchHit Score))
      → IsIn h hits
      → IsIn h (take n hits) ⊎ (length (take n hits) ≡ n)
  take-IsIn h zero hits i = inr refl
  take-IsIn h (suc n) [] i = absurd i
  take-IsIn h (suc n) (x ∷ hits) (inl q) = inl (inl q)
  take-IsIn h (suc n) (x ∷ hits) (inr i) = elim (take-IsIn h n hits i) [
    | inl k ↦ inl (inr k)
    | inr k ↦ inr (ap suc k)
  ]

  evidence_of-IsIn :
      (hits : List (SearchHit Score)) (i : ℕ)
      → Every (λ e. IsIn e (map excerpt_of hits)) (evidence_of (get_elem? hits i))
  evidence_of-IsIn [] i = tt
  evidence_of-IsIn (h ∷ hits) zero = (inl refl, tt)
  evidence_of-IsIn (h ∷ hits) (suc i) =
      Every-weaken (λ e. IsIn e (map excerpt_of hits)) _ (λ e k. inr k) _ (evidence_of-IsIn hits i)

  cite-IsIn :
      (hits : List (SearchHit Score)) (indices : List ℕ)
      → Every (λ e. IsIn e (map excerpt_of hits)) (cite hits indices)
  unfolding cite
  cite-IsIn hits [] = tt
  cite-IsIn hits (zero ∷ indices) = cite-IsIn hits indices
  cite-IsIn hits (suc i ∷ indices) =
      Every-append _ (evidence_of (get_elem? hits i)) (cite hits indices) (evidence_of-IsIn hits i)
        (cite-IsIn hits indices)

  ruled-backed :
      (hits : List (SearchHit Score)) (v : Verdict)
      → ruled (is_empty hits) v ≡ compliant
      → 0 < length hits
  unfolding ruled
  ruled-backed [] compliant e = absurd (cc e)
  ruled-backed [] gap e = absurd (cc e)
  ruled-backed [] indeterminate e = absurd (cc e)
  ruled-backed (h ∷ hits) v e = omega arith

  pub finding_of-IsGrounded :
      (regulation_id : Uuid) (r : Requirement) (found : List (SearchHit Score)) (j : Judgement)
      → IsGrounded regulation_id r
          (finding_of r (others regulation_id found) j)
          found
          (others regulation_id found)
  unfolding finding_of others
  finding_of-IsGrounded regulation_id r found j =
      let kept = select (λ h. not (h.document_id == regulation_id)) found in
      record {
        same_ref = refl;
        drawn = Every-take _ evidence_k kept (Every-of _ kept (λ h i. (select-IsIn _ h found i).0));
        filled =
            Every-of _ found
              (λ h i e. take-IsIn h evidence_k kept (IsIn-select _ h found i (rw e refl)));
        few = omega (arith, length-take evidence_k kept);
        foreign = Every-take _ evidence_k kept (select-foreign regulation_id found);
        backed = ruled-backed (take evidence_k kept) j.verdict;
        cited = cite-IsIn (take evidence_k kept) j.indices;
      }
