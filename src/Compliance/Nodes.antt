-- ===== src/Compliance/Nodes.antt =====
-- The nodes of the audit graph (backend/src/sovereign_rag/agents/compliance.py) and the run of its
-- three nodes in a line.
use sovereign_rag.Base.{
  ℕ, suc, ◌+◌, Option, none, some, List, [], ◌∷◌, ◌++◌, map, Bool, true, false, leb, ltb,
  if◌then◌else◌, length, take, select,
}
use sovereign_rag.Text.{Text, codes, newline, join, decimal, strip}
use sovereign_rag.Effects.{Outcome, ok, Run, pure, lift, catch_value, ◌>>=◌, ◌>>◌}
use sovereign_rag.Json.{Json, iterate, json_payload}
use sovereign_rag.Llm.{ask}
use sovereign_rag.Store.{Uuid}
use sovereign_rag.Compliance.State.{
  Requirement, Verdict, compliant, gap, indeterminate, Finding, AuditState, AuditDeps,
  max_requirements, evidence_k, map_prompt, judge_prompt,
}
use sovereign_rag.Compliance.Reading.{
  batches_from, add_items, undecided, read_judgement, others, judge_question, finding_of,
}

abbrev pub is_verdict : Verdict → Finding → Bool
is_verdict compliant f = elim f.verdict [ compliant ↦ true | _ ↦ false ]
is_verdict gap f = elim f.verdict [ gap ↦ true | _ ↦ false ]
is_verdict indeterminate f = elim f.verdict [ indeterminate ↦ true | _ ↦ false ]

abbrev pub count : Verdict → List Finding → Text
count v findings = decimal (length (select (is_verdict v) findings))

abbrev pub or_none : Text → Text
or_none [] = codes "(none)"
or_none (c ∷ s) = c ∷ s

unfoldable pub report_question : List Finding → Text
report_question findings =
    codes "Verdicts: {'compliant': "
    ++ (count compliant findings
        ++ (codes ", 'gap': "
            ++ (count gap findings
                ++ (codes ", 'indeterminate': "
                    ++ (count indeterminate findings
                        ++ (codes "}. Gaps:\n"
                            ++ (or_none (
                                  join (newline ∷ []) (
                                    take 10 (
                                      map (λ f. f.ref ++ (codes ": " ++ f.rationale))
                                        (select (is_verdict gap) findings))))
                                ++ (codes
                                      "\n\nWrite a 3-5 sentence executive summary of this compliance audit,"
                                    ++ (codes
                                          " in the language of the gaps (or French if none), factual tone,"
                                        ++ codes
                                            " no recommendations beyond closing the gaps. Plain text only.")))))))))

-- the items of the reply, if it had JSON
abbrev pub items_of : Option Json → Outcome (List Json)
items_of none = ok []
items_of (some raw) = iterate raw

module _ {W Vector Score : Type 0} (deps : AuditDeps W Vector Score) where
  open deps use {llm, embedder, store, user_id, on_requirements, on_finding, json}

  unfoldable pub ask_json : Text → Text → Run W Json
  ask_json system_text user_text = do
    reply ← ask llm system_text user_text
    lift (json_payload json reply)

  -- an excerpt whose reply has no JSON adds nothing
  unfoldable pub read_batch : Text → List Requirement → Run W (List Requirement)
  unfolding ask_json add_items
  read_batch text requirements = do
    raw ← catch_value (do v ← ask_json map_prompt text; pure (some v)) (pure none)
    found ← lift (items_of raw)
    pure (add_items json found requirements)

  unfoldable pub read_batches : List Text → List Requirement → Run W (List Requirement)
  unfolding read_batch
  read_batches [] requirements = pure requirements
  read_batches (text ∷ texts) requirements =
      if leb max_requirements (length requirements)
      then pure requirements
      else do requirements' ← read_batch text requirements; read_batches texts requirements'

  -- a job that is resumed has its map
  abbrev pub map_regulation : List Requirement → AuditState → Run W AuditState
  map_regulation (r ∷ rs) st = pure st
  map_regulation [] st = do
    all ← read_batches (batches_from [] 0 st.regulation_text) []
    on_requirements (take max_requirements all)
    pure (record st { requirements = take max_requirements all })

  unfoldable pub cartographer : AuditState → Run W AuditState
  unfolding read_batches
  cartographer st = map_regulation st.requirements st

  -- one requirement: search, judge, cite
  unfoldable pub judge : Uuid → Requirement → Run W Finding
  unfolding ask_json read_judgement others judge_question finding_of
  judge regulation_id requirement = do
    embedding ← embedder.embed_query requirement.text
    found ← store.hybrid_search requirement.text embedding user_id (evidence_k + 4)
    let hits = others regulation_id found
    judgement ←
        catch_value
          (do
            raw ← ask_json judge_prompt (judge_question requirement hits)
            lift (read_judgement json raw))
          (pure undecided)
    pure (finding_of requirement hits judgement)

  -- `done` findings are there already; `index` counts the requirements
  unfoldable pub assess_from : Uuid → ℕ → ℕ → List Requirement → List Finding → Run W (List Finding)
  unfolding judge
  assess_from regulation_id done index [] findings = pure findings
  assess_from regulation_id done index (r ∷ rs) findings =
      if ltb index done then assess_from regulation_id done (suc index) rs findings else do
        finding ← judge regulation_id r
        on_finding finding
        assess_from regulation_id done (suc index) rs (findings ++ finding ∷ [])

  unfoldable pub investigate_and_judge : AuditState → Run W AuditState
  unfolding assess_from
  investigate_and_judge st = do
    findings ← assess_from st.regulation_id (length st.findings) 0 st.requirements st.findings
    pure (record st { findings = findings })

  unfoldable pub reporter : AuditState → Run W AuditState
  unfolding report_question
  reporter st = do
    summary ← ask llm (codes "You are a compliance report writer.") (report_question st.findings)
    pure (record st { summary = strip summary })

  -- `graph.ainvoke(state)`: the three nodes in a line
  unfoldable pub ainvoke : AuditState → Run W AuditState
  unfolding cartographer investigate_and_judge reporter
  ainvoke st = do
    mapped ← cartographer st
    assessed ← investigate_and_judge mapped
    reporter assessed
