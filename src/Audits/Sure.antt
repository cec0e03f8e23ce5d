-- ===== src/Audits/Sure.antt =====
-- Claims on the rows of `audits` before and after an action on the jobs, whatever else it changes:
-- one rule for each way to build it.
use sovereign_rag.Base.{◌≡◌, refl, List}
use sovereign_rag.Effects.{
  Returned, value_error, Outcome, ok, raised, Run, continue, handle, pure, lift, catch_value, ◌>>=◌,
}
use sovereign_rag.Audits.State.{AuditRow}
use sovereign_rag.Audits.Service.{Jobs, JobDeps, on_jobs, run_statement, execute}

abbrev pub Claim : Type 1
Claim = List AuditRow → Type 0

module _ {W : Type 0} where
  abbrev pub Holds : {A : Type 0} → (A → Claim) → Claim → Outcome A × Jobs W → Type 0
  Holds Q X (ok a, s) = Q a s.audits
  Holds Q X (raised e, s) = X s.audits

  -- from `P`, the action ends in `Q` with a value, or in `X` with a fault
  pub record Sure {A : Type 0} (P : Claim) (Q : A → Claim) (X : Claim) (m : Run (Jobs W) A)
      : Type 0 where
    pub at : (s : Jobs W) → P s.audits → Holds Q X (m s)

module _ {W A B : Type 0} {Q : A → Claim} {R : B → Claim} {X : Claim} where
  Holds-continue :
      (r : Outcome A) (f : A → Run (Jobs W) B) (s : Jobs W)
      → Holds Q X (r, s)
      → ((a : A) → Sure (Q a) R X (f a))
      → Holds R X (continue r f s)
  Holds-continue (ok a) f s h k = (k a).at s h
  Holds-continue (raised e) f s h k = h

  pub Sure-bind :
      {P : Claim} (m : Run (Jobs W) A) (f : A → Run (Jobs W) B)
      → Sure P Q X m
      → ((a : A) → Sure (Q a) R X (f a))
      → Sure P R X (m >>= f)
  unfolding ◌>>=◌
  Sure-bind m f h k = record { at = λ s p. Holds-continue (m s).0 f (m s).1 (h.at s p) k }

module _ {W A : Type 0} {P : Claim} {Q : A → Claim} {X : Claim} where
  pub Sure-pure :
      (a : A) → ((rows : List AuditRow) → P rows → Q a rows) → Sure {W = W} P Q X (pure a)
  unfolding pure
  Sure-pure a h = record { at = λ s p. h s.audits p }

-- actions that leave the rows as they are
module _ {W A : Type 0} (P X : Claim) (fails : (rows : List AuditRow) → P rows → X rows) where
  abbrev pub Keeps : Run (Jobs W) A → Type 0
  Keeps m = Sure P (λ _. P) X m

  Holds-kept : (r : Outcome A) (s : Jobs W) → P s.audits → Holds (λ _. P) X (r, s)
  Holds-kept (ok a) s p = p
  Holds-kept (raised e) s p = fails s.audits p

  pub Keeps-on_jobs : (m : Run W A) → Keeps (on_jobs m)
  Keeps-on_jobs m = record {
    at = λ s p. Holds-kept (m s.world).0 (record s { world = (m s.world).1 }) p;
  }

  -- what is returned is what the component has returned
  pub Returned-on_jobs : (m : Run W A) → Sure P (λ a rows. Returned m a × P rows) X (on_jobs m)
  Returned-on_jobs m = record {
    at = λ s p. returned s.world (m s.world).0 refl (record s { world = (m s.world).1 }) p;
  }
    where
      returned :
          (w : W) (r : Outcome A)
          → (m w).0 ≡ r
          → (s : Jobs W) → P s.audits
          → Holds (λ a rows. Returned m a × P rows) X (r, s)
      returned w (ok a) e s p = ((w, e), p)
      returned w (raised x) e s p = fails s.audits p

  pub Keeps-lift : (r : Outcome A) → Keeps (lift r)
  unfolding lift
  Keeps-lift r = record { at = λ s p. Holds-kept r s p }

-- `X` is `P` itself: what is kept is kept by a fault too
module _ {W A : Type 0} (P : Claim) where
  Holds-handle :
      (r : Outcome A) (handler : Run (Jobs W) A) (s : Jobs W)
      → Holds (λ _. P) P (r, s)
      → Sure P (λ _. P) P handler
      → Holds (λ _. P) P (handle r handler s)
  unfolding handle
  Holds-handle (ok a) handler s h k = h
  Holds-handle (raised value_error) handler s h k = k.at s h
  Holds-handle (raised _) handler s h k = h

  pub Keeps-catch_value :
      (m handler : Run (Jobs W) A)
      → Sure P (λ _. P) P m
      → Sure P (λ _. P) P handler
      → Sure P (λ _. P) P (catch_value m handler)
  unfolding catch_value
  Keeps-catch_value m handler h k = record {
    at = λ s p. Holds-handle (m s).0 handler (m s).1 (h.at s p) k;
  }

module _ {W A : Type 0} {P : Claim} {Q : A → Claim} {X : Claim} where
  pub Sure-weaken :
      {X' : Claim} (m : Run (Jobs W) A)
      → Sure P Q X' m
      → ((rows : List AuditRow) → X' rows → X rows)
      → Sure P Q X m
  Sure-weaken {X' = X'} m h k = record { at = λ s p. weakened (m s).0 (m s).1 (h.at s p) }
    where
      weakened : (r : Outcome A) (s : Jobs W) → Holds Q X' (r, s) → Holds Q X (r, s)
      weakened (ok a) s q = q
      weakened (raised e) s x = k s.audits x

  pub Sure-execute :
      {Vector Score : Type 0} (deps : JobDeps W Vector Score) (f : Jobs W → A × Jobs W)
      → ((s : Jobs W) → P s.audits → Q (f s).0 (f s).1.audits)
      → ((rows : List AuditRow) → P rows → X rows)
      → Sure P Q X (execute deps f)
  unfolding execute
  Sure-execute deps f h k = record {
    at = λ s p. ran (deps.statement s.world).0 (record s { world = (deps.statement s.world).1 }) p;
  }
    where
      ran : (r : Outcome (Unit {0})) (s : Jobs W) → P s.audits → Holds Q X (run_statement f r s)
      ran (ok _) s p = h s p
      ran (raised e) s p = k s.audits p

  pub Sure-from :
      {P' : Claim} (m : Run (Jobs W) A)
      → ((rows : List AuditRow) → P' rows → P rows)
      → Sure P Q X m
      → Sure P' Q X m
  Sure-from m k h = record { at = λ s p. h.at s (k s.audits p) }

  -- a fact that no row decides
  pub Sure-given :
      {K : Type 0} (m : Run (Jobs W) A) → (K → Sure P Q X m) → Sure (λ rows. K × P rows) Q X m
  Sure-given m h = record { at = λ s (k, p). (h k).at s p }

module _ {W A K : Type 0} {P : K → Claim} {Q : A → Claim} {X : Claim} where
  -- the rows decide which
  pub Sure-each :
      (m : Run (Jobs W) A) → ((k : K) → Sure (P k) Q X m) → Sure (λ rows. (k : K) × P k rows) Q X m
  Sure-each m h = record { at = λ s (k, p). (h k).at s p }
