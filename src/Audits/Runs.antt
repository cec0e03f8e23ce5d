-- ===== src/Audits/Runs.antt =====
-- The stored row is a checkpoint: however a run of an audit ends, the stored findings answer the
-- first of the stored requirements, and those that were there are kept
-- (`_run` of backend/src/sovereign_rag/audits.py).
use sovereign_rag.Base.{
  ◌≡◌, refl, sym, ◌∙◌, subst, ◌⊎◌, inl, inr, Option, none, some, List, [], ◌++◌, append-nil, true,
  length, drop,
}
use sovereign_rag.Text.{Text}
use sovereign_rag.Effects.{
  cancelled, value_error, other_error, extraction_error, provider_error, raise, Outcome, ok, raised,
  pure, ◌>>=◌,
}
use sovereign_rag.Store.{Uuid}
use sovereign_rag.Compliance.State.{Requirement, Finding}
use sovereign_rag.Audits.State.{
  is_active, Status, queued, running, completed, failed, AuditRow, load, update, set_status,
  set_complete,
}
use sovereign_rag.Audits.Service.{
  Jobs, JobDeps, execute, change, begin, state_of, assess, settle, run_audit,
}
use sovereign_rag.Audits.Sure.{
  Sure-given, Claim, Holds, Sure, Sure-bind, Sure-pure, Sure-weaken, Sure-execute,
}
use sovereign_rag.Audits.Asking.{JobSource}
use sovereign_rag.Compliance.Judged.{Source}
use sovereign_rag.Audits.Stored.{load-update, Stored, Progress, MapKept}
use sovereign_rag.Audits.Graph.{ainvoke-Sure}

-- How a run leaves the stored audit `had`: the findings that were there are kept, and new ones
-- answer the first of the requirements that they leave; a completed audit has them all.
pub record IsCheckpoint {Score : Type 0} (S : Source Score) (id : Uuid) (had : AuditRow)
    (rows : List AuditRow) : Type 0 where
  pub row : AuditRow
  pub loaded : load id rows ≡ some row
  pub map : (had.requirements ≡ row.requirements) ⊎ (had.requirements ≡ [])
  pub new : List Finding
  pub kept : row.findings ≡ had.findings ++ new
  pub rest : List Requirement
  pub progress : Progress S had.regulation_id row.requirements had.findings new rest
  pub finished : row.status ≡ completed → rest ≡ []

module _ {W Vector Score : Type 0} (deps : JobDeps W Vector Score) (id : Uuid) (had : AuditRow)
    (active : is_active had.status ≡ true) (owner_id : Text) where
  abbrev Kept : Claim
  Kept = IsCheckpoint (JobSource deps id owner_id) id had

  -- a row that is not completed
  partly_kept :
      (status : Status) (requirements : List Requirement) (new : List Finding)
      (rest : List Requirement) (rows : List AuditRow)
      → (status ≡ completed → rest ≡ [])
      → MapKept had.requirements requirements
      → Stored id had.regulation_id status requirements (had.findings ++ new) rows
      → Progress (JobSource deps id owner_id) had.regulation_id requirements had.findings new rest
      → Kept rows
  partly_kept status requirements new rest rows f m s p = record {
    row = s.row;
    loaded = s.loaded;
    map = elim m [ inl e ↦ inl (e ∙ sym s.same_requirements) | inr e ↦ inr e ];
    new = new;
    kept = s.same_findings;
    rest = rest;
    progress =
        subst
          (λ rs. Progress (JobSource deps id owner_id) had.regulation_id rs had.findings new rest)
          (sym s.same_requirements) p;
    finished = λ e. f (sym s.same_status ∙ e);
  }

  -- the row before the run
  unbegun : (rows : List AuditRow) → load id rows ≡ some had → Kept rows
  unbegun rows e = record {
    row = had;
    loaded = e;
    map = inl refl;
    new = [];
    kept = sym (append-nil had.findings);
    rest = drop (length had.findings) had.requirements;
    progress = record { answered = []; split = refl; answers = tt };
    finished = λ c. absurd (inactive had.status active c);
  }
    where
      inactive : (s : Status) → is_active s ≡ true → s ≡ completed → ⊥
      inactive queued a c = cc c
      inactive running a c = cc c
      inactive completed a c = cc a
      inactive failed a c = cc c

  -- a change of the status alone
  restated :
      (status : Status) (error : Option Text) (rows : List AuditRow)
      → (status ≡ completed → ⊥)
      → Kept rows
      → Kept (update id (set_status status error) rows)
  restated status error rows n k = record {
    row = set_status status error k.row;
    loaded = load-update id (set_status status error) rows k.row (λ r. refl) k.loaded;
    map = k.map;
    new = k.new;
    kept = k.kept;
    rest = k.rest;
    progress = k.progress;
    finished = λ e. absurd (n e);
  }

  abbrev Begun : Option (AuditRow × List Text) → Claim
  Begun none rows = ⊥
  Begun (some (row, chunks)) rows =
      (row ≡ had) × Stored id had.regulation_id running had.requirements had.findings rows

  begin-Begun :
      (s : Jobs W)
      → load id s.audits ≡ some had
      → (let (loaded, s') = begin deps id (load id s.audits) s in Begun loaded s'.audits)
  begin-Begun s e =
      subst (λ o. (let (loaded, s') = begin deps id o s in Begun loaded s'.audits)) (sym e)
        (
          refl,
          record {
            row = set_status running none had;
            loaded = load-update id (set_status running none) s.audits had (λ r. refl) e;
            same_regulation = refl;
            same_status = refl;
            same_requirements = refl;
            same_findings = refl;
          },
        )

  assess-Kept :
      (loaded : Option (AuditRow × List Text))
      → Sure (Begun loaded) (λ _. Kept) Kept (assess deps id owner_id loaded)
  assess-Kept none = Sure-pure _ (λ rows b. absurd b)
  assess-Kept (some (row, chunks)) = Sure-given {K = row ≡ had} _ λ e.
      subst
        (λ r.
          Sure (Stored id had.regulation_id running had.requirements had.findings) (λ _. Kept) Kept
            (assess deps id owner_id (some (r, chunks))))
        (sym e)
        (Sure-bind _ _
          (Sure-weaken _ (ainvoke-Sure deps id owner_id (state_of deps had chunks))
            (λ rows (rs, m, (new, rest, s, p)).
              partly_kept running rs new rest rows (λ c. absurd (cc c)) m s p))
          λ final.
            Sure-execute deps _
              (λ s (rs, m, (new, st, p)).
                partly_kept completed rs new [] _ (λ c. refl) m
                  (record {
                    row = set_complete final.summary st.row;
                    loaded =
                        load-update id (set_complete final.summary) s.audits st.row (λ r. refl)
                          st.loaded;
                    same_regulation = st.same_regulation;
                    same_status = refl;
                    same_requirements = st.same_requirements;
                    same_findings = st.same_findings;
                  })
                  p)
              (λ rows (rs, m, (new, s, p)). partly_kept running rs new [] rows (λ c. refl) m s p))

  Holds-Kept : (r : Outcome (Unit {0})) (t : Jobs W) → Holds (λ _. Kept) Kept (r, t) → Kept t.audits
  Holds-Kept (ok _) t k = k
  Holds-Kept (raised x) t k = k

  fails-Kept :
      (e : Text) (s : Jobs W)
      → Kept s.audits
      → Kept (execute deps (change deps id (set_status failed (some e))) s).1.audits
  fails-Kept e s k = Holds-Kept _ _ (
      (Sure-execute {X = Kept} deps (change deps id (set_status failed (some e)))
          (λ t k'. restated failed (some e) t.audits (λ c. cc c) k') (λ rows k'. k')).at
        s k)

  settle-Kept :
      (r : Outcome (Unit {0})) (s : Jobs W) → Kept s.audits → Kept (settle deps id r s).1.audits
  unfolding pure raise
  settle-Kept (ok _) s k = k
  settle-Kept (raised cancelled) s k = k
  settle-Kept (raised (provider_error t)) s k = fails-Kept _ s k
  settle-Kept (raised (extraction_error t)) s k = fails-Kept _ s k
  settle-Kept (raised value_error) s k = fails-Kept _ s k
  settle-Kept (raised (other_error t)) s k = fails-Kept _ s k

  -- Take a stored audit that is queued or running. However its run ends, with a fault of any
  -- component, of the database or a cancellation included, the row is still stored: its
  -- requirements are kept if there were any, its findings are those that were there followed by
  -- new ones, and the new ones answer, one by one, the first of the requirements that the old
  -- findings leave, each on hits that the store returned for its requirement and that are of
  -- other documents than the regulation. If the row is completed, none is left.
  pub run_audit-IsCheckpoint :
      (s : Jobs W)
      → load id s.audits ≡ some had
      → IsCheckpoint (JobSource deps id owner_id) id had (run_audit deps id owner_id s).1.audits
  unfolding run_audit
  run_audit-IsCheckpoint s e =
      let body =
        (execute deps (λ t. begin deps id (load id t.audits) t)) >>= assess deps id owner_id in
      settle-Kept (body s).0 (body s).1 (
        Holds-Kept (body s).0 (body s).1 (
          (Sure-bind _ _
              (Sure-execute deps _ (λ t e'. begin-Begun t e') (λ rows e'. unbegun rows e'))
              (λ loaded. assess-Kept loaded)).at
            s e))
