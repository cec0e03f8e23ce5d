-- ===== src/Compliance/Reading.antt =====
-- What the nodes of the audit graph do without asking anyone: batches, the items of a reply, the
-- judgement and its citations (backend/src/sovereign_rag/agents/compliance.py).
use sovereign_rag.Base.{
  ℕ, zero, suc, ◌+◌, Option, none, some, List, [], ◌∷◌, ◌++◌, Bool, true, false, not, ltb, ◌==◌,
  if◌then◌else◌, is_empty, length, take, select, get_elem?,
}
use sovereign_rag.Text.{Text, codes, newline, join, decimal, strip, same_text}
use sovereign_rag.Effects.{Outcome, ok, raised}
use sovereign_rag.Json.{Json, boolean, integer, object, Fields, JsonModule, iterate, get, str_of}
use sovereign_rag.Store.{Uuid, SearchHit}
use sovereign_rag.Compliance.State.{
  Requirement, Evidence, Verdict, compliant, gap, indeterminate, Finding, evidence_k,
}

abbrev pub paragraphs_of : List Text → Text
paragraphs_of parts = join (newline ∷ newline ∷ []) parts

-- the chunks in batches of more than 3000 characters, the last one as it comes
unfoldable pub batches_from : List Text → ℕ → List Text → List Text
batches_from batch size [] = if is_empty batch then [] else paragraphs_of batch ∷ []
batches_from batch size (chunk ∷ chunks) =
    let closed = batches_from [] 0 chunks in
    let more = batches_from (batch ++ chunk ∷ []) (size + length chunk) chunks in
    if ltb 3000 (size + length chunk) then paragraphs_of (batch ++ chunk ∷ []) ∷ closed else more

-- `str(item.get(key, default))`
abbrev pub str_or : JsonModule → Text → Option Json → Text
str_or m default none = default
str_or m default (some v) = str_of m v

-- `ref or "n/a"`
abbrev pub or_unnamed : Text → Text
or_unnamed [] = codes "n/a"
or_unnamed (c ∷ s) = c ∷ s

-- one item of the model's list; what is no dict or has no text is skipped
unfoldable pub requirement_of : JsonModule → Json → List Requirement
requirement_of m (object fs) =
    let req = take 400 (strip (str_or m [] (get (codes "text") fs))) in
    if is_empty req
    then []
    else record {
      ref = or_unnamed (take 80 (strip (str_or m [] (get (codes "ref") fs))));
      text = req;
    }
      ∷ []
requirement_of m _ = []

unfoldable pub add_items : JsonModule → List Json → List Requirement → List Requirement
unfolding requirement_of
add_items m [] requirements = requirements
add_items m (item ∷ raw) requirements = add_items m raw (requirements ++ requirement_of m item)

-- what the judge said
pub record Judgement : Type 0 where
  pub verdict : Verdict
  pub rationale : Text
  pub indices : List ℕ

-- before the reply is read
abbrev pub undecided : Judgement
undecided = record { verdict = indeterminate; rationale = []; indices = [] }

abbrev pub judgement_named : Text → Verdict
judgement_named candidate =
    if same_text candidate (codes "compliant")
    then compliant
    else if same_text candidate (codes "gap")
    then gap
    else indeterminate

-- `isinstance(i, int)`: a bool is an int, and a negative int is no index
abbrev pub ints : List Json → List ℕ
ints [] = []
ints (integer n ∷ rest) = n ∷ ints rest
ints (boolean true ∷ rest) = 1 ∷ ints rest
ints (boolean false ∷ rest) = 0 ∷ ints rest
ints (_ ∷ rest) = ints rest

-- `raw.get("evidence", [])`, iterated
abbrev pub evidence_items : Option Json → Outcome (List Json)
evidence_items none = ok []
evidence_items (some v) = iterate v

abbrev pub with_indices : JsonModule → Fields → Outcome (List Json) → Outcome Judgement
with_indices m fs (raised e) = raised e
with_indices m fs (ok cited) = ok (record {
  verdict = judgement_named (str_or m (codes "indeterminate") (get (codes "verdict") fs));
  rationale = take 500 (str_or m [] (get (codes "rationale") fs));
  indices = ints cited;
})

-- a reply that is no dict decides nothing
unfoldable pub read_judgement : JsonModule → Json → Outcome Judgement
read_judgement m (object fs) = with_indices m fs (evidence_items (get (codes "evidence") fs))
read_judgement m _ = ok undecided

-- without a passage nothing is compliant
unfoldable pub ruled : Bool → Verdict → Verdict
ruled true compliant = gap
ruled _ v = v

abbrev pub or_no_passage : Text → Text
or_no_passage [] = codes "(no relevant passage found)"
or_no_passage (c ∷ s) = c ∷ s

module _ {Score : Type 0} where
  -- the other documents' hits
  unfoldable pub others : Uuid → List (SearchHit Score) → List (SearchHit Score)
  others regulation_id hits =
      take evidence_k (select (λ h. not (h.document_id == regulation_id)) hits)

  abbrev pub blocks_from : ℕ → List (SearchHit Score) → List Text
  blocks_from index [] = []
  blocks_from index (hit ∷ hits) =
      (codes "["
        ++ (decimal index ++ (codes "] " ++ (hit.filename ++ (codes ":\n" ++ hit.content)))))
      ∷ blocks_from (suc index) hits

  unfoldable pub judge_question : Requirement → List (SearchHit Score) → Text
  judge_question requirement hits =
      codes "Requirement ("
      ++ (requirement.ref
          ++ (codes "): "
              ++ (requirement.text
                  ++ (codes "\n\nInternal documents:\n\n"
                      ++ or_no_passage (paragraphs_of (blocks_from 1 hits))))))

  abbrev pub evidence_of : Option (SearchHit Score) → List Evidence
  evidence_of none = []
  evidence_of (some hit) = record { filename = hit.filename; excerpt = take 300 hit.content } ∷ []

  -- `hits[i - 1]` for the indices within `1 <= i <= len(hits)`
  unfoldable pub cite : List (SearchHit Score) → List ℕ → List Evidence
  cite hits [] = []
  cite hits (zero ∷ indices) = cite hits indices
  cite hits (suc i ∷ indices) = evidence_of (get_elem? hits i) ++ cite hits indices

  unfoldable pub finding_of : Requirement → List (SearchHit Score) → Judgement → Finding
  unfolding ruled cite
  finding_of requirement hits j = record {
    ref = requirement.ref;
    verdict = ruled (is_empty hits) j.verdict;
    rationale = j.rationale;
    evidence = cite hits j.indices;
  }
