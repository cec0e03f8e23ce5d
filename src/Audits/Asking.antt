-- ===== src/Audits/Asking.antt =====
-- The parts of the audit graph that only ask leave the rows as they are (the graph of
-- backend/src/sovereign_rag/agents/compliance.py, run by backend/src/sovereign_rag/audits.py).
use sovereign_rag.Base.{inl, inr, List, [], ◌∷◌, Bool-cases, leb, length}
use sovereign_rag.Text.{Text}
use sovereign_rag.Effects.{continue, Outcome, ok, raised, pure, lift, ◌>>=◌}
use sovereign_rag.Llm.{user, system, Collected, ask, collect}
use sovereign_rag.Store.{Uuid}
use sovereign_rag.Compliance.State.{Requirement, AuditDeps, max_requirements, map_prompt}
use sovereign_rag.Compliance.Reading.{others}
use sovereign_rag.Compliance.Nodes.{ask_json, read_batch, read_batches, judge}
use sovereign_rag.Compliance.Grounded.{finding_of-IsGrounded}
use sovereign_rag.Compliance.Judged.{Source, Searched, Answer}
use sovereign_rag.Audits.State.{AuditRow}
use sovereign_rag.Audits.Service.{Jobs, JobDeps, audit_deps}
use sovereign_rag.Audits.Sure.{
  Claim, Holds, Sure, Sure-bind, Sure-pure, Returned-on_jobs, Sure-given, Keeps-lift,
  Keeps-catch_value,
}

module _ {W Vector Score : Type 0} (deps : JobDeps W Vector Score) (id : Uuid)
    (owner_id : Text) where
  abbrev pub graph_deps : AuditDeps (Jobs W) Vector Score
  graph_deps = audit_deps deps id owner_id

  -- what the search of this job finds
  abbrev pub JobSource : Source Score
  JobSource = Searched deps.embedder deps.store owner_id

  module _ (P : Claim) where
    kept : (rows : List AuditRow) → P rows → P rows
    kept rows p = p

    pub ask-Keeps : (s u : Text) → Sure P (λ _. P) P (ask graph_deps.llm s u)
    unfolding ask audit_deps ◌>>=◌ pure lift
    ask-Keeps s u = record {
      at = λ j p.
          let (stream, j') =
            graph_deps.llm.stream_chat
              (record { role = system; content = s } ∷ record { role = user; content = u } ∷ [])
              j in
          told (collect stream) j' p;
    }
      where
        told :
            (r : Outcome Collected) (j : Jobs W)
            → P j.audits
            → Holds (λ _. P) P (continue r (λ reply. pure reply.text) j)
        told (ok c) j p = p
        told (raised e) j p = p

    ask_json-Keeps : (s u : Text) → Sure P (λ _. P) P (ask_json graph_deps s u)
    unfolding ask_json
    ask_json-Keeps s u = Sure-bind _ _ (ask-Keeps s u) λ reply. Keeps-lift P P kept _

    pub judge-Keeps :
        (regulation_id : Uuid) (r : Requirement)
        → Sure P
            (λ f rows. P rows × Answer JobSource regulation_id r f)
            P
            (judge graph_deps regulation_id r)
    unfolding judge audit_deps
    judge-Keeps regulation_id r = Sure-bind _ _ (Returned-on_jobs P P kept _) λ v.
        Sure-given _ λ embedded. Sure-bind _ _ (Returned-on_jobs P P kept _) λ found.
          Sure-given _ λ returned.
            Sure-bind _ _
              (Keeps-catch_value P _ _
                (Sure-bind _ _ (ask_json-Keeps _ _) λ raw. Keeps-lift P P kept _)
                (Sure-pure _ (λ rows p. p)))
              λ j. Sure-pure _ (λ rows p. (
                p,
                (
                  found,
                  others regulation_id found,
                  record { vector = v; embedded = embedded; returned = returned },
                  finding_of-IsGrounded regulation_id r found j,
                ),
              ))

    pub read_batches-Keeps :
        (texts : List Text) (rs : List Requirement)
        → Sure P (λ _. P) P (read_batches graph_deps texts rs)
    unfolding read_batches read_batch
    read_batches-Keeps [] rs = Sure-pure _ (λ rows p. p)
    read_batches-Keeps (text ∷ texts) rs = elim (Bool-cases (leb max_requirements (length rs))) [
      | inl full ↦ rw full (Sure-pure _ (λ rows p. p))
      | inr room ↦ rw room (
          Sure-bind {Q = λ _. P} _ _
            (Sure-bind _ _
              (Keeps-catch_value P _ _
                (Sure-bind _ _ (ask_json-Keeps map_prompt text) λ v. Sure-pure _ (λ rows p. p))
                (Sure-pure _ (λ rows p. p)))
              λ o. Sure-bind _ _ (Keeps-lift P P kept _) λ found. Sure-pure _ (λ rows p. p))
            λ rs'. read_batches-Keeps texts rs')
    ]
