-- ===== src/Compliance/Judged.antt =====
-- One finding for each requirement that no earlier run has judged, and each rests on passages of
-- other documents (`investigate_and_judge` of
-- backend/src/sovereign_rag/agents/compliance.py).
use sovereign_rag.Base.{
  ◌+◌, Option-cases, ℕ, zero, suc, ◌-◌, ◌≡◌, refl, sym, ap, ◌∙◌, subst, ◌⊎◌, inl, inr, Option, none,
  some, List, [], ◌∷◌, ◌++◌, append_assoc, append-nil, arith, Bool-cases, ltb, length, drop,
}
use sovereign_rag.Text.{Text, codes}
use sovereign_rag.Effects.{
  Returned, Ends-Returned, Fault, value_error, other_error, Outcome, ok, raised, Ends, Anything,
  Allowed, Ends-pure, Ends-lift, Ends-bind, Ends-catch_value, Ends-weaken,
}
use sovereign_rag.Json.{
  number, integer, boolean, string, Fields, array, Json, iterate, object, null, boolean, integer,
  number, json_payload, load_span, json_span,
}
use sovereign_rag.Llm.{ask}
use sovereign_rag.Store.{Uuid, SearchHit, EmbeddingClient, VectorStore}
use sovereign_rag.Compliance.State.{evidence_k, Requirement, Finding, AuditState, AuditDeps}
use sovereign_rag.Compliance.Reading.{others, read_judgement, with_indices, evidence_items}
use sovereign_rag.Compliance.Nodes.{ask_json, judge, assess_from, investigate_and_judge}
use sovereign_rag.Compliance.Grounded.{IsGrounded, finding_of-IsGrounded}

-- The faults that the components may raise: `E` stands for any set that has them, and the
-- TypeError of a reply whose `evidence` cannot be iterated.
pub record AuditDepsEnd {W Vector Score : Type 0} (E : Fault → Type 0)
    (deps : AuditDeps W Vector Score) : Type 0 where
  pub asks : (system_text user_text : Text) → Ends Anything E (ask deps.llm system_text user_text)
  pub embeds : (query : Text) → Ends Anything E (deps.embedder.embed_query query)
  pub searches :
      (query : Text) (v : Vector) (user : Text) (k : ℕ)
      → Ends Anything E (deps.store.hybrid_search query v user k)
  pub saves_requirements : (rs : List Requirement) → Ends Anything E (deps.on_requirements rs)
  pub saves_finding : (f : Finding) → Ends Anything E (deps.on_finding f)
  pub iterates : E (other_error (codes "TypeError"))

-- the store may find these hits for the text of the requirement
pub record Searched {W Vector Score : Type 0} (embedder : EmbeddingClient W Vector)
    (store : VectorStore W Vector Score) (user_id : Text) (r : Requirement)
    (found : List (SearchHit Score)) : Type 0 where
  pub vector : Vector
  pub embedded : Returned (embedder.embed_query r.text) vector
  pub returned : Returned (store.hybrid_search r.text vector user_id (evidence_k + 4)) found

-- what was found for a requirement
abbrev pub Source : Type 0 → Type 1
Source Score = Requirement → List (SearchHit Score) → Type 0

-- the finding answers the requirement, on passages that were found for it
abbrev pub Answer : {Score : Type 0} → Source Score → Uuid → Requirement → Finding → Type 0
Answer {Score} S regulation_id r f =
    (found : List (SearchHit Score)) × (hits : List (SearchHit Score)) × S r found
    × IsGrounded regulation_id r f found hits

-- the findings answer the requirements one by one
abbrev pub Answers :
    {Score : Type 0} → Source Score → Uuid → List Requirement → List Finding → Type 0
Answers S regulation_id [] [] = Unit
Answers S regulation_id (r ∷ rs) (f ∷ fs) =
    Answer S regulation_id r f × Answers S regulation_id rs fs
Answers S regulation_id _ _ = ⊥

abbrev pub Sources : {W Vector Score : Type 0} → AuditDeps W Vector Score → Source Score
Sources deps = Searched deps.embedder deps.store deps.user_id

module _ {W Vector Score : Type 0} {E : Fault → Type 0} (deps : AuditDeps W Vector Score)
    (h : AuditDepsEnd E deps) where
  abbrev Caught : Fault → Type 0
  Caught e = (e ≡ value_error) ⊎ E e

  load_span-Allowed : (o : Option Text) → Allowed Anything Caught (load_span deps.json o)
  unfolding load_span
  load_span-Allowed none = inl refl
  load_span-Allowed (some s) = elim (Option-cases (deps.json.loads s)) [
    | inl bad ↦ rw (bad, Allowed) (inl refl)
    | inr (v, good) ↦ rw (good, Allowed) tt
  ]

  pub ask_json-Ends :
      (system_text user_text : Text) → Ends Anything Caught (ask_json deps system_text user_text)
  unfolding ask_json json_payload
  ask_json-Ends system_text user_text =
      Ends-bind _ _ (Ends-weaken _ (h.asks system_text user_text) (λ a k. k) (λ e k. inr k))
        λ reply k. Ends-lift _ (load_span-Allowed (json_span reply))

  pub iterate-Allowed : (v : Json) → Allowed Anything Caught (iterate v)
  unfolding iterate
  iterate-Allowed (array xs) = tt
  iterate-Allowed (object fs) = tt
  iterate-Allowed (string s) = tt
  iterate-Allowed null = inr h.iterates
  iterate-Allowed (boolean b) = inr h.iterates
  iterate-Allowed (integer n) = inr h.iterates
  iterate-Allowed (number t) = inr h.iterates

  evidence_items-Allowed : (o : Option Json) → Allowed Anything Caught (evidence_items o)
  evidence_items-Allowed none = tt
  evidence_items-Allowed (some v) = iterate-Allowed v

  with_indices-Allowed :
      (fs : Fields) (r : Outcome (List Json))
      → Allowed Anything Caught r
      → Allowed Anything Caught (with_indices deps.json fs r)
  with_indices-Allowed fs (ok cited) k = tt
  with_indices-Allowed fs (raised e) k = k

  read_judgement-Allowed : (v : Json) → Allowed Anything Caught (read_judgement deps.json v)
  unfolding read_judgement
  read_judgement-Allowed (object fs) = with_indices-Allowed fs _ (evidence_items-Allowed _)
  read_judgement-Allowed _ = tt

  judge-Ends :
      (regulation_id : Uuid) (r : Requirement)
      → Ends (Answer (Sources deps) regulation_id r) E (judge deps regulation_id r)
  unfolding judge
  judge-Ends regulation_id r = Ends-bind _ _ (Ends-Returned _ (h.embeds r.text)) λ v embedded.
      Ends-bind _ _ (Ends-Returned _ (h.searches r.text v deps.user_id _)) λ found returned.
        Ends-bind _ _
          (Ends-catch_value _ _
            (Ends-bind _ _ (ask_json-Ends _ _) λ raw _. Ends-lift _ (read_judgement-Allowed raw))
            (Ends-pure _ tt))
          λ j _. Ends-pure _ (
            found,
            others regulation_id found,
            record { vector = v; embedded = embedded; returned = returned },
            finding_of-IsGrounded regulation_id r found j,
          )

  -- the findings that are added answer the requirements from number `done` on
  abbrev Extends : Uuid → List Requirement → List Finding → List Finding → Type 0
  Extends regulation_id rs findings all =
      (new : List Finding) × (all ≡ findings ++ new) × Answers (Sources deps) regulation_id rs new

  assess_from-Ends :
      (regulation_id : Uuid) (done index : ℕ) (rs : List Requirement) (findings : List Finding)
      → Ends
          (Extends regulation_id (drop (done - index) rs) findings)
          E
          (assess_from deps regulation_id done index rs findings)
  unfolding assess_from
  assess_from-Ends regulation_id done index [] findings =
      Ends-pure _ ([], sym (append-nil findings), nothing (done - index))
    where
      nothing : (n : ℕ) → Answers (Sources deps) regulation_id (drop n []) []
      nothing zero = tt
      nothing (suc n) = tt
  assess_from-Ends regulation_id done index (r ∷ rs) findings = elim (Bool-cases (ltb index done)) [
    | inl before ↦
        let left : done - index ≡ suc (done - suc index) = ground arith in
        rw (before, left) (assess_from-Ends regulation_id done (suc index) rs findings)
    | inr after ↦
        let none_left : done - index ≡ 0 = ground arith in
        let none_next : done - suc index ≡ 0 = ground arith in
        rw (after, none_left)
          (Ends-bind _ _ (judge-Ends regulation_id r) λ f k.
            Ends-bind _ _ (h.saves_finding f) λ _ _.
              Ends-weaken _
                (subst
                  (λ n.
                    Ends (Extends regulation_id (drop n rs) (findings ++ f ∷ [])) E
                      (assess_from deps regulation_id done (suc index) rs (findings ++ f ∷ [])))
                  none_next
                  (assess_from-Ends regulation_id done (suc index) rs (findings ++ f ∷ [])))
                (λ all (new, e, a). (f ∷ new, e ∙ append_assoc findings (f ∷ []) new, (k, a)))
                (λ e x. x))
  ]

  -- Each requirement that no earlier run has judged gets one finding.
  pub investigate_and_judge-Ends :
      (st : AuditState)
      → Ends
          (λ st'.
            (new : List Finding) × (st' ≡ record st { findings = st.findings ++ new })
            × Answers
                (Sources deps)
                st.regulation_id
                (drop (length st.findings) st.requirements)
                new)
          E
          (investigate_and_judge deps st)
  unfolding investigate_and_judge
  investigate_and_judge-Ends st =
      Ends-bind _ _
        (assess_from-Ends st.regulation_id (length st.findings) 0 st.requirements st.findings)
        λ all (new, e, a).
          let judged : length st.findings - 0 ≡ length st.findings = omega arith in
          Ends-pure _ (
            new,
            ap (λ fs. record st { findings = fs }) e,
            subst (λ n. Answers (Sources deps) st.regulation_id (drop n st.requirements) new) judged
                a,
          )
