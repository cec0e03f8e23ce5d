-- ===== src/Compliance/Tests.antt =====
-- A resumed audit at a scripted judge.
use sovereign_rag.Base.{ℕ, ◌≡◌, refl, none, some, List, [], ◌∷◌, drop}
use sovereign_rag.Text.{Text, codes, same_text}
use sovereign_rag.Effects.{
  ◌>>=◌, catch_value, other_error, raised, Outcome, ok, Fault, pure, Ends, Ends-pure, Anything,
}
use sovereign_rag.Json.{
  json_payload, get, iterate, str_of, Json, object, string, array, integer, field, end, cons, nil,
}
use sovereign_rag.Llm.{finished, chunk, ask}
use sovereign_rag.Store.{SearchHit}
use sovereign_rag.Compliance.State.{Requirement, Finding, compliant, gap, AuditState, AuditDeps}
use sovereign_rag.Compliance.Nodes.{ainvoke}
use sovereign_rag.Compliance.Judged.{AuditDepsEnd, Sources, Answers}
use sovereign_rag.Compliance.Mapped.{IsMapOf, ainvoke-Ends}

passage : ℕ → SearchHit ℕ
passage n = record {
  chunk_id = n;
  document_id = n;
  filename = codes "policy.md";
  section = none;
  page = none;
  content = codes "text";
  score = n;
  vec_rank = some n;
  fts_rank = none;
}

-- the judge finds everything compliant, on passages 1 and 9
verdict_reply : Json
verdict_reply = object (
    field (codes "verdict") (string (codes "compliant"))
      (field (codes "evidence") (array (cons (integer 1) (cons (integer 9) nil))) end))

-- `pages` are the documents that a search finds
scripted : List (SearchHit ℕ) → AuditDeps ℕ ℕ ℕ
unfolding verdict_reply
scripted pages = record {
  llm = record {
    stream_chat = λ messages w. (
      chunk (record { delta = codes "{}"; prompt_tokens = none; completion_tokens = none })
          finished,
      w,
    );
  };
  embedder = record { embed_query = λ q. pure 0 };
  store = record { hybrid_search = λ q v u k. pure pages };
  user_id = codes "alice";
  on_requirements = λ rs. pure tt;
  on_finding = λ f. pure tt;
  json = record { loads = λ s. some verdict_reply; repr = λ v. [] };
}

-- a reply whose `evidence` is no list
abbrev TypeError : Fault → Type 0
TypeError e = e ≡ other_error (codes "TypeError")

asks_lem :
    (pages : List (SearchHit ℕ)) (s u : Text)
    → Ends Anything TypeError (ask (scripted pages).llm s u)
unfolding ask scripted
asks_lem pages s u = record { at = λ w. tt }

scripted-AuditDepsEnd : (pages : List (SearchHit ℕ)) → AuditDepsEnd TypeError (scripted pages)
unfolding scripted
scripted-AuditDepsEnd pages = record {
  asks = asks_lem pages;
  embeds = λ q. Ends-pure _ tt;
  searches = λ q v u k. Ends-pure _ tt;
  saves_requirements = λ rs. Ends-pure _ tt;
  saves_finding = λ f. Ends-pure _ tt;
  iterates = refl;
}

abbrev duty : Text → Requirement
duty t = record { ref = codes "Art. 1"; text = t }

abbrev judged : Finding
judged = record { ref = codes "Art. 1"; verdict = gap; rationale = []; evidence = [] }

-- two duties, of which one is judged
abbrev resumed : AuditState
resumed = record {
  regulation_id = 5;
  regulation_text = [];
  requirements = duty (codes "Keep a register.") ∷ duty (codes "Name an officer.") ∷ [];
  findings = judged ∷ [];
  summary = [];
}

ainvoke-Ends_example :
    Ends
      (λ st'.
        (rs : List Requirement) × (new : List Finding) × (summary : Text) × (st'
          ≡ record resumed { requirements = rs; findings = judged ∷ new; summary = summary })
        × IsMapOf resumed rs
        × Answers (Sources (scripted (passage 7 ∷ []))) 5 (drop 1 rs) new)
      TypeError
      (ainvoke (scripted (passage 7 ∷ [])) resumed)
ainvoke-Ends_example =
    ainvoke-Ends (scripted (passage 7 ∷ [])) (scripted-AuditDepsEnd (passage 7 ∷ [])) resumed

abbrev findings_of : Outcome AuditState × ℕ → Outcome (List Finding)
findings_of (ok st, w) = ok st.findings
findings_of (raised e, w) = raised e

-- passage 9 is not there, and the regulation, document 5, is no passage
judged_runs :
    (findings_of (ainvoke (scripted (passage 5 ∷ passage 7 ∷ [])) resumed 0)
      ≡ ok (
          judged
          ∷ record {
            ref = codes "Art. 1";
            verdict = compliant;
            rationale = [];
            evidence = record { filename = codes "policy.md"; excerpt = codes "text" } ∷ [];
          }
          ∷ []))
    × (findings_of (ainvoke (scripted (passage 5 ∷ [])) resumed 0) ≡ ok (judged ∷ judged ∷ []))
unfolding ainvoke scripted ◌>>=◌ catch_value ask json_payload get same_text iterate passage str_of
judged_runs = (refl, refl)
