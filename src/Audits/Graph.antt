-- ===== src/Audits/Graph.antt =====
-- A whole run of the audit graph on a stored audit (the graph of
-- backend/src/sovereign_rag/agents/compliance.py, run by backend/src/sovereign_rag/audits.py).
use sovereign_rag.Base.{◌≡◌, refl, sym, ap, subst, List, [], ◌++◌, append-nil, arith, length, drop}
use sovereign_rag.Text.{Text}
use sovereign_rag.Effects.{◌>>=◌}
use sovereign_rag.Store.{Uuid}
use sovereign_rag.Compliance.State.{Requirement, Finding, AuditState}
use sovereign_rag.Compliance.Nodes.{
  assess_from, investigate_and_judge, cartographer, reporter, ainvoke,
}
use sovereign_rag.Audits.State.{running, AuditRow}
use sovereign_rag.Audits.Service.{JobDeps}
use sovereign_rag.Audits.Sure.{
  Sure-each, Sure-from, Sure-given, Claim, Sure, Sure-bind, Sure-pure, Sure-weaken,
}
use sovereign_rag.Audits.Stored.{Stored, Progress, MapKept}
use sovereign_rag.Audits.Asking.{JobSource, graph_deps, ask-Keeps}
use sovereign_rag.Audits.Checkpoint.{Partly, Left, assess_from-Sure, map_regulation-Sure}

module _ {W Vector Score : Type 0} (deps : JobDeps W Vector Score) (id : Uuid)
    (owner_id : Text) where
  -- the graph was run to its end
  abbrev pub Whole : (regulation_id : Uuid) (had : List Requirement) (old : List Finding) → Claim
  Whole regulation_id had old rows =
      (requirements : List Requirement) × MapKept had requirements
      × ((new : List Finding) × Stored id regulation_id running requirements (old ++ new) rows
          × Progress (JobSource deps id owner_id) regulation_id requirements old new [])

  rest-Sure :
      (had : List Requirement) (st : AuditState)
      → MapKept had st.requirements
      → Sure
          (Stored id st.regulation_id running st.requirements st.findings)
          (λ final. Whole st.regulation_id had st.findings)
          (Left deps id owner_id st.regulation_id st.findings had)
          (investigate_and_judge (graph_deps deps id owner_id) st
            >>= reporter (graph_deps deps id owner_id))
  unfolding investigate_and_judge reporter
  rest-Sure had st k =
      let begun : (rows : List AuditRow)
          → Stored id st.regulation_id running st.requirements st.findings rows
          → Stored id st.regulation_id running st.requirements (st.findings ++ []) rows =
        λ rows r.
          subst (λ fs. Stored id st.regulation_id running st.requirements fs rows)
            (sym (append-nil st.findings)) r in
      Sure-bind {Q = λ _. Whole st.regulation_id had st.findings} _ _
        (Sure-bind _ _
          (Sure-from _ begun (
            Sure-weaken _
              (subst
                (λ fs.
                  Sure (Stored id st.regulation_id running st.requirements (st.findings ++ []))
                    (λ all rows.
                      (more : List Finding) × Stored id st.regulation_id running st.requirements
                        (st.findings ++ more) rows
                      × Progress (JobSource deps id owner_id) st.regulation_id st.requirements
                          st.findings more [])
                    (Partly deps id owner_id st.regulation_id st.findings st.requirements)
                    (assess_from (graph_deps deps id owner_id) st.regulation_id (length st.findings)
                      0 st.requirements fs))
                (append-nil st.findings)
                (assess_from-Sure deps id owner_id st.regulation_id st.findings st.requirements
                  (length st.findings) 0 st.requirements [] []
                  (ap (λ n. drop n st.requirements) (omega arith)) tt))
              (λ rows part. (st.requirements, k, part))))
          λ all. Sure-pure _ (λ rows more. (st.requirements, k, more)))
        λ assessed.
          Sure-bind _ _
            (Sure-weaken _ (ask-Keeps deps id owner_id (Whole st.regulation_id had st.findings) _ _)
              (λ rows (rs, k', (new, s, p)). (rs, k', (new, [], s, p))))
            λ summary. Sure-pure _ (λ rows w. w)

  pub ainvoke-Sure :
      (st : AuditState)
      → Sure
          (Stored id st.regulation_id running st.requirements st.findings)
          (λ final. Whole st.regulation_id st.requirements st.findings)
          (Left deps id owner_id st.regulation_id st.findings st.requirements)
          (ainvoke (graph_deps deps id owner_id) st)
  unfolding ainvoke cartographer
  ainvoke-Sure st =
      Sure-bind _ _
        (map_regulation-Sure deps id owner_id st.regulation_id st.findings st.requirements st refl)
        λ mapped. Sure-each _ λ requirements.
          Sure-given {K = mapped ≡ record st { requirements = requirements }} _ λ e.
            Sure-given {K = MapKept st.requirements requirements} _ λ k.
              subst
                (λ m.
                  Sure (Stored id st.regulation_id running requirements st.findings)
                    (λ final. Whole st.regulation_id st.requirements st.findings)
                    (Left deps id owner_id st.regulation_id st.findings st.requirements)
                    (investigate_and_judge (graph_deps deps id owner_id) m
                      >>= reporter (graph_deps deps id owner_id)))
                (sym e) (rest-Sure st.requirements (record st { requirements = requirements }) k)
