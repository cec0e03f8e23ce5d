-- ===== src/Audits/Tests.antt =====
-- An audit that was interrupted after its first finding, at a scripted judge.
use sovereign_rag.Base.{arith, ℕ, ◌≡◌, refl, none, some, List, [], ◌∷◌, map}
use sovereign_rag.Text.{codes, same_text}
use sovereign_rag.Effects.{ok, pure, catch_value, ◌>>=◌}
use sovereign_rag.Json.{Json, object, string, field, end, json_payload, get, str_of, iterate}
use sovereign_rag.Llm.{finished, chunk, ask}
use sovereign_rag.Compliance.State.{Finding, gap}
use sovereign_rag.Compliance.Nodes.{ainvoke}
use sovereign_rag.Audits.State.{
  AuditRow, Status, running, completed, load, update, has_active, interrupted,
}
use sovereign_rag.Audits.Service.{Jobs, JobDeps, run_audit, launch, resume_interrupted}
use sovereign_rag.Audits.Launch.{IsSingle, launch-IsSingle}
use sovereign_rag.Audits.Asking.{JobSource}
use sovereign_rag.Audits.Runs.{IsCheckpoint, run_audit-IsCheckpoint}

-- the judge finds a gap
gap_reply : Json
gap_reply = object (field (codes "verdict") (string (codes "gap")) end)

scripted : JobDeps ℕ ℕ ℕ
unfolding gap_reply
scripted = record {
  llm = record {
    stream_chat = λ messages w. (
      chunk (record { delta = codes "{}"; prompt_tokens = none; completion_tokens = none })
          finished,
      w,
    );
  };
  embedder = record { embed_query = λ q. pure 0 };
  store = record { hybrid_search = λ q v u k. pure [] };
  json = record { loads = λ s. some gap_reply; repr = λ v. [] };
  uuid4 = λ w. (w, w);
  statement = pure tt;
  str_of_fault = λ e. [];
}

abbrev judged : Finding
judged = record { ref = codes "Art. 1"; verdict = gap; rationale = []; evidence = [] }

abbrev stopped : AuditRow
stopped = record {
  id = 4;
  owner_id = codes "alice";
  regulation_id = 5;
  regulation_filename = codes "act.md";
  status = running;
  requirements =
      record { ref = codes "Art. 1"; text = codes "Keep a register." }
      ∷ record { ref = codes "Art. 2"; text = codes "Name an officer." }
      ∷ [];
  findings = judged ∷ [];
  summary = none;
  error = none;
}

abbrev jobs : Jobs ℕ
jobs = record { world = 9; audits = stopped ∷ []; chunks = λ id. []; trail = []; tasks = [] }

run_audit-IsCheckpoint_example :
    IsCheckpoint
      (JobSource scripted 4 (codes "alice"))
      4
      stopped
      (run_audit scripted 4 (codes "alice") jobs).1.audits
unfolding load
run_audit-IsCheckpoint_example =
    run_audit-IsCheckpoint scripted 4 stopped refl (codes "alice") jobs refl

-- The interrupted audit is relaunched; it completes with one more finding. Its owner launches no
-- other one meanwhile.
resumed :
    (map {B = Status × List Finding}
        (λ row. (row.status, row.findings))
        (run_audit scripted 4 (codes "alice") jobs).1.audits
      ≡ (
        completed,
        judged ∷ record { ref = codes "Art. 2"; verdict = gap; rationale = []; evidence = [] } ∷ [],
      )
        ∷ [])
    × ((resume_interrupted scripted jobs).1.tasks ≡ (4, codes "alice") ∷ [])
    × ((launch scripted (codes "alice") 6 (codes "act.md") jobs).0 ≡ ok none)
    × ((launch scripted (codes "bob") 6 (codes "act.md") jobs).0 ≡ ok (some 9))
unfolding run_audit ainvoke scripted ◌>>=◌ catch_value ask json_payload get same_text iterate str_of
    load update resume_interrupted launch has_active interrupted
resumed = (refl, refl, refl, refl)

stopped-IsSingle : IsSingle (stopped ∷ [])
stopped-IsSingle owner_id = ground arith

launch-IsSingle_example : IsSingle (launch scripted (codes "bob") 6 (codes "act.md") jobs).1.audits
launch-IsSingle_example =
    launch-IsSingle scripted (codes "bob") 6 (codes "act.md") jobs stopped-IsSingle
