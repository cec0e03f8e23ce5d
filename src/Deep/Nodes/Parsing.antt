-- ===== src/Deep/Nodes/Parsing.antt =====
-- What the planner and the verifier read from a model's JSON reply
-- (backend/src/sovereign_rag/agents/graph.py, in `plan` and `verify`).
use sovereign_rag.Base.{
  Option, none, some, List, [], ◌∷◌, map, not, if◌then◌else◌, is_empty, take, select,
}
use sovereign_rag.Text.{Text, codes, strip, same_text}
use sovereign_rag.Json.{Json, string, object, JsonModule, str_of, get}
use sovereign_rag.Deep.State.{
  Claim, ClaimVerdict, supported, misattributed, unsupported, unanswerable,
}

-- `subqs or [question]`
unfoldable pub or_question : Text → List Text → List Text
or_question question [] = question ∷ []
or_question question (q ∷ qs) = q ∷ qs

-- `[str(q) for q in raw if str(q).strip()][:4] or [question]`
unfoldable pub subquestions : JsonModule → Text → List Json → List Text
unfolding or_question
subquestions m question raw =
    or_question question (take 4 (select (λ q. not (is_empty (strip q))) (map (str_of m) raw)))

verdict_named : Text → ClaimVerdict
verdict_named v =
    if same_text v (codes "misattributed")
    then misattributed
    else if same_text v (codes "unsupported")
    then unsupported
    else if same_text v (codes "unanswerable")
    then unanswerable
    else supported

-- A verdict that is missing, unknown or no text counts as supported.
unfoldable pub verdict_of : Option Json → ClaimVerdict
unfolding verdict_named
verdict_of (some (string v)) = verdict_named v
verdict_of _ = supported

-- `str(item.get(key, ""))[:200]`
clip : JsonModule → Option Json → Text
clip m none = []
clip m (some v) = take 200 (str_of m v)

-- the loop over `raw`: what is no dict is skipped
unfoldable pub claims_of : JsonModule → List Json → List Claim
unfolding clip
claims_of m [] = []
claims_of m (object fs ∷ rest) =
    record {
      text = clip m (get (codes "text") fs);
      verdict = verdict_of (get (codes "verdict") fs);
      fix_query = clip m (get (codes "fix_query") fs);
    }
    ∷ claims_of m rest
claims_of m (_ ∷ rest) = claims_of m rest
