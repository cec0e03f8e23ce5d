-- ===== src/Audits/Checkpoint.antt =====
-- The stored row is a checkpoint: however a run of an audit ends, the stored findings answer the
-- first of the stored requirements, and those that were there are kept
-- (`_run` of backend/src/sovereign_rag/audits.py).
use sovereign_rag.Base.{
  ℕ, zero, suc, ◌-◌, ◌≡◌, refl, sym, ap, ◌∙◌, subst, inl, inr, List, [], ◌∷◌, ◌++◌, append_assoc,
  append-nil, arith, Bool-cases, ltb, length, drop, take,
}
use sovereign_rag.Text.{Text}
use sovereign_rag.Store.{Uuid}
use sovereign_rag.Compliance.State.{Requirement, Finding, AuditState, max_requirements}
use sovereign_rag.Compliance.Reading.{batches_from}
use sovereign_rag.Compliance.Nodes.{assess_from, map_regulation}
use sovereign_rag.Compliance.Judged.{Answer, Answers}
use sovereign_rag.Audits.State.{running, AuditRow, update, set_requirements, append_finding}
use sovereign_rag.Audits.Service.{JobDeps, audit_deps}
use sovereign_rag.Audits.Sure.{
  Sure-given, Claim, Sure, Sure-bind, Sure-pure, Sure-weaken, Sure-execute,
}
use sovereign_rag.Audits.Stored.{load-update, Stored, Progress, MapKept, Answers-append}
use sovereign_rag.Audits.Asking.{JobSource, graph_deps, judge-Keeps, read_batches-Keeps}

module _ {W Vector Score : Type 0} (deps : JobDeps W Vector Score) (id : Uuid)
    (owner_id : Text) where
  module _ (regulation_id : Uuid) (old : List Finding) where
    -- what a fault of the graph leaves: the old findings, and new ones for the first requirements
    abbrev pub Partly : List Requirement → Claim
    Partly requirements rows =
        (new : List Finding) × (rest : List Requirement) × Stored id regulation_id running
          requirements (old ++ new) rows
        × Progress (JobSource deps id owner_id) regulation_id requirements old new rest

    appended :
        (requirements : List Requirement) (findings : List Finding) (f : Finding)
        (rows : List AuditRow)
        → Stored id regulation_id running requirements findings rows
        → Stored id regulation_id running requirements
            (findings ++ f ∷ [])
            (update id (append_finding f) rows)
    appended requirements findings f rows st = record {
      row = append_finding f st.row;
      loaded = load-update id (append_finding f) rows st.row (λ r. refl) st.loaded;
      same_regulation = st.same_regulation;
      same_status = st.same_status;
      same_requirements = st.same_requirements;
      same_findings = ap (λ fs. fs ++ f ∷ []) st.same_findings;
    }

    pub assess_from-Sure :
        (requirements : List Requirement) (done index : ℕ) (rs answered : List Requirement)
        (new : List Finding)
        → drop (length old) requirements ≡ answered ++ drop (done - index) rs
        → Answers (JobSource deps id owner_id) regulation_id answered new
        → Sure
            (Stored id regulation_id running requirements (old ++ new))
            (λ all rows.
              (more : List Finding) × Stored id regulation_id running requirements
                (old ++ more)
                rows
              × Progress (JobSource deps id owner_id) regulation_id requirements old more [])
            (Partly requirements)
            (assess_from (graph_deps deps id owner_id) regulation_id done index rs (old ++ new))
    unfolding assess_from audit_deps
    assess_from-Sure requirements done index [] answered new e a = Sure-pure _ (λ rows st. (
      new,
      st,
      record {
        answered = answered;
        split = e ∙ ap (λ x. answered ++ x) (nothing (done - index));
        answers = a;
      },
    ))
      where
        nothing : (n : ℕ) → drop {A = Requirement} n [] ≡ []
        nothing zero = refl
        nothing (suc n) = refl
    assess_from-Sure requirements done index (r ∷ rs) answered new e a =
        elim (Bool-cases (ltb index done)) [
          | inl before ↦
              let left : done - index ≡ suc (done - suc index) = ground arith in
              rw before (
                assess_from-Sure requirements done (suc index) rs answered new
                  (e ∙ ap (λ n. answered ++ drop n (r ∷ rs)) left) a)
          | inr after ↦
              let none_left : done - index ≡ 0 = ground arith in
              let none_next : done - suc index ≡ 0 = ground arith in
              let here : drop (length old) requirements ≡ answered ++ r ∷ rs =
                e ∙ ap (λ n. answered ++ drop n (r ∷ rs)) none_left in
              let Ended : List Finding → Claim = λ all rows.
                (more : List Finding) × Stored id regulation_id running requirements (old ++ more)
                  rows
                × Progress (JobSource deps id owner_id) regulation_id requirements old more [] in
              let now = Stored id regulation_id running requirements (old ++ new) in
              rw after (
                Sure-bind _ _
                  (Sure-weaken _ (judge-Keeps deps id owner_id now regulation_id r) (λ rows st.
                    (new, r ∷ rs, st, record { answered = answered; split = here; answers = a })))
                  λ f.
                    Sure-bind
                      {Q = λ _ rows.
                        Answer (JobSource deps id owner_id) regulation_id r f
                        × Stored id regulation_id running requirements (old ++ (new ++ f ∷ []))
                            rows}
                      _ _
                      (Sure-execute deps _
                        (λ s (st, k). (
                          k,
                          subst
                              (λ fs.
                                Stored id regulation_id running requirements fs
                                  (update id (append_finding f) s.audits))
                              (append_assoc old new (f ∷ []))
                              (appended requirements (old ++ new) f s.audits st),
                        ))
                        (λ rows (st, k). (
                          new,
                          r ∷ rs,
                          st,
                          record { answered = answered; split = here; answers = a },
                        )))
                      λ _. Sure-given _ λ k.
                        subst
                          (λ fs.
                            Sure
                              (Stored id regulation_id running requirements
                                (old ++ (new ++ f ∷ [])))
                              Ended (Partly requirements)
                              (assess_from (graph_deps deps id owner_id) regulation_id done
                                (suc index) rs fs))
                          (sym (append_assoc old new (f ∷ [])))
                          (assess_from-Sure requirements done (suc index) rs (answered ++ r ∷ [])
                            (new ++ f ∷ [])
                            (here
                              ∙ sym (append_assoc answered (r ∷ []) rs)
                              ∙ ap (λ n. (answered ++ r ∷ []) ++ drop n rs) (sym none_next))
                            (Answers-append (JobSource deps id owner_id) regulation_id answered new
                              r f a k)))
        ]

    -- what the graph leaves of the row, finished or not
    abbrev pub Left : List Requirement → Claim
    Left had rows =
        (requirements : List Requirement) × MapKept had requirements × Partly requirements rows

    pub map_regulation-Sure :
        (had : List Requirement) (st : AuditState)
        → st.requirements ≡ had
        → Sure
            (Stored id regulation_id running had old)
            (λ mapped rows.
              (requirements : List Requirement) × ((mapped
                  ≡ record st { requirements = requirements })
                × (MapKept had requirements
                    × Stored id regulation_id running requirements old rows)))
            (Left had)
            (map_regulation (graph_deps deps id owner_id) had st)
    unfolding audit_deps
    map_regulation-Sure (r ∷ rs) st e =
        Sure-pure st
          (λ rows k. (r ∷ rs, (ap (λ x. record st { requirements = x }) e, (inl refl, k))))
    map_regulation-Sure [] st e =
        Sure-bind _ _
          (Sure-weaken _
            (read_batches-Keeps deps id owner_id (Stored id regulation_id running [] old)
              (batches_from [] 0 st.regulation_text) [])
            (λ rows k. unmapped rows k))
          λ all.
            Sure-bind {Q = λ _. Stored id regulation_id running (take max_requirements all) old} _ _
              (Sure-execute deps _
                (λ s k. record {
                  row = set_requirements (take max_requirements all) k.row;
                  loaded =
                      load-update id (set_requirements (take max_requirements all)) s.audits k.row
                        (λ r. refl) k.loaded;
                  same_regulation = k.same_regulation;
                  same_status = k.same_status;
                  same_requirements = refl;
                  same_findings = k.same_findings;
                })
                (λ rows k. unmapped rows k))
              λ _. Sure-pure _ (λ rows k. (take max_requirements all, (refl, (inr refl, k))))
      where
        unmapped :
            (rows : List AuditRow) → Stored id regulation_id running [] old rows → Left [] rows
        unmapped rows k = (
          [],
          inl refl,
          (
            [],
            drop (length old) [],
            subst (λ fs. Stored id regulation_id running [] fs rows) (sym (append-nil old)) k,
            record { answered = []; split = refl; answers = tt },
          ),
        )
