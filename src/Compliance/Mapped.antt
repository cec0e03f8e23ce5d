-- ===== src/Compliance/Mapped.antt =====
-- The map of a regulation, and the run of the whole graph
-- (`cartographer` and the graph of backend/src/sovereign_rag/agents/compliance.py).
use sovereign_rag.Base.{
  ◌≤◌, ◌<◌, ◌≡◌, refl, sym, ap, ◌∙◌, subst, ◌⊎◌, inl, inr, Option, none, some, List, [], ◌∷◌, ◌++◌,
  arith, Bool-cases, leb, if◌then◌else◌, is_empty, length, take, drop, length-take, Every,
  Every-append, Every-take,
}
use sovereign_rag.Text.{Text, codes, strip}
use sovereign_rag.Effects.{
  Fault, Ends, Anything, Allowed, Ends-pure, Ends-lift, Ends-bind, Ends-catch_value,
}
use sovereign_rag.Json.{
  Json, object, null, boolean, integer, number, string, array, JsonModule, get, iterate,
}
use sovereign_rag.Compliance.State.{
  Requirement, Finding, AuditState, AuditDeps, max_requirements, map_prompt,
}
use sovereign_rag.Compliance.Reading.{str_or, or_unnamed, requirement_of, add_items, batches_from}
use sovereign_rag.Compliance.Nodes.{
  items_of, read_batch, read_batches, map_regulation, cartographer, reporter, ainvoke,
}
use sovereign_rag.Compliance.Judged.{
  AuditDepsEnd, Sources, Answers, ask_json-Ends, investigate_and_judge-Ends,
}

-- a duty that is named, in one clipped sentence
pub record IsDuty (r : Requirement) : Type 0 where
  pub named : (0 < length r.ref) × (length r.ref ≤ 80)
  pub stated : (0 < length r.text) × (length r.text ≤ 400)

abbrev pub AreDuties : List Requirement → Type 0
AreDuties rs = Every IsDuty rs

named_lem : (s : Text) → length s ≤ 80 → (0 < length (or_unnamed s)) × (length (or_unnamed s) ≤ 80)
named_lem [] h = omega arith
named_lem (c ∷ s) h = omega arith

stated_lem :
    (s ref : Text)
    → length s ≤ 400
    → (0 < length ref) × (length ref ≤ 80)
    → AreDuties (if is_empty s then [] else record { ref = ref; text = s } ∷ [])
stated_lem [] ref h n = tt
stated_lem (c ∷ s) ref h n = (record { named = n; stated = omega arith }, tt)

requirement_of-AreDuties : (m : JsonModule) (v : Json) → AreDuties (requirement_of m v)
unfolding requirement_of
requirement_of-AreDuties m (object fs) =
    stated_lem _ _ (omega (arith, length-take 400 (strip (str_or m [] (get (codes "text") fs)))))
      (named_lem _ (omega (arith, length-take 80 (strip (str_or m [] (get (codes "ref") fs))))))
requirement_of-AreDuties m _ = tt

add_items-AreDuties :
    (m : JsonModule) (raw : List Json) (rs : List Requirement)
    → AreDuties rs
    → AreDuties (add_items m raw rs)
unfolding add_items
add_items-AreDuties m [] rs h = h
add_items-AreDuties m (v ∷ raw) rs h =
    add_items-AreDuties m raw _ (Every-append IsDuty rs _ h (requirement_of-AreDuties m v))

-- a map that was there is kept; a new one has at most thirty duties
abbrev pub IsMapOf : AuditState → List Requirement → Type 0
IsMapOf st rs =
    ((0 < length st.requirements) × (rs ≡ st.requirements))
    ⊎ ((st.requirements ≡ []) × (length rs ≤ max_requirements) × AreDuties rs)

module _ {W Vector Score : Type 0} {E : Fault → Type 0} (deps : AuditDeps W Vector Score)
    (h : AuditDepsEnd E deps) where
  -- what is read of a batch can be iterated
  abbrev Readable : Option Json → Type 0
  Readable o = Allowed Anything E (items_of o)

  iterate-Readable : (v : Json) → Readable (some v)
  unfolding iterate
  iterate-Readable (array xs) = tt
  iterate-Readable (object fs) = tt
  iterate-Readable (string s) = tt
  iterate-Readable null = h.iterates
  iterate-Readable (boolean b) = h.iterates
  iterate-Readable (integer n) = h.iterates
  iterate-Readable (number t) = h.iterates

  read_batch-AreDuties :
      (text : Text) (rs : List Requirement)
      → AreDuties rs
      → Ends AreDuties E (read_batch deps text rs)
  unfolding read_batch
  read_batch-AreDuties text rs k =
      Ends-bind {P = Readable} _ _
        (Ends-catch_value _ _
          (Ends-bind _ _ (ask_json-Ends deps h map_prompt text)
            λ v _. Ends-pure (some v) (iterate-Readable v))
          (Ends-pure none tt))
        λ o readable.
          Ends-bind {P = Anything} _ _ (Ends-lift _ readable)
            λ found _. Ends-pure _ (add_items-AreDuties deps.json found rs k)

  read_batches-AreDuties :
      (texts : List Text) (rs : List Requirement)
      → AreDuties rs
      → Ends AreDuties E (read_batches deps texts rs)
  unfolding read_batches
  read_batches-AreDuties [] rs k = Ends-pure rs k
  read_batches-AreDuties (text ∷ texts) rs k =
      elim (Bool-cases (leb max_requirements (length rs))) [
        | inl full ↦ rw full (Ends-pure rs k)
        | inr room ↦ rw room (
            Ends-bind _ _ (read_batch-AreDuties text rs k)
              λ rs' k'. read_batches-AreDuties texts rs' k')
      ]

  map_regulation-Ends :
      (have : List Requirement) (st : AuditState)
      → st.requirements ≡ have
      → Ends
          (λ st'. (rs : List Requirement) × (st' ≡ record st { requirements = rs }) × IsMapOf st rs)
          E
          (map_regulation deps have st)
  map_regulation-Ends (r ∷ rs) st e =
      Ends-pure st
        (st.requirements, refl, inl (subst (λ x. 0 < length x) (sym e) (omega arith), refl))
  map_regulation-Ends [] st e =
      Ends-bind _ _ (read_batches-AreDuties (batches_from [] 0 st.regulation_text) [] tt) λ all k.
        Ends-bind _ _ (h.saves_requirements (take max_requirements all)) λ _ _. Ends-pure _ (
          take max_requirements all,
          refl,
          inr (
            e,
            omega (arith, length-take max_requirements all),
            Every-take IsDuty max_requirements all k,
          ),
        )

  pub cartographer-Ends :
      (st : AuditState)
      → Ends
          (λ st'. (rs : List Requirement) × (st' ≡ record st { requirements = rs }) × IsMapOf st rs)
          E
          (cartographer deps st)
  unfolding cartographer
  cartographer-Ends st = map_regulation-Ends st.requirements st refl

  -- Let E be any set of faults that contains those which the components given to the audit graph
  -- may raise, and a TypeError. A run of the graph from any state either raises a fault of E or
  -- ends. Requirements that were there are kept; else at most thirty are found, each with a text
  -- of 1 to 400 characters and a reference of 1 to 80. The findings that were there are kept in
  -- front, and one is added for each requirement beyond their number, in order and under its
  -- reference. It rests on at most six of the hits that the store returned for the requirement's
  -- text and its embedding: none of the regulation itself, and all others unless there are six.
  -- It cites only those, and is compliant only if there is one.
  pub ainvoke-Ends :
      (st : AuditState)
      → Ends
          (λ st'.
            (rs : List Requirement) × (new : List Finding) × (summary : Text) × (st'
              ≡ record st { requirements = rs; findings = st.findings ++ new; summary = summary })
            × IsMapOf st rs
            × Answers (Sources deps) st.regulation_id (drop (length st.findings) rs) new)
          E
          (ainvoke deps st)
  unfolding ainvoke reporter
  ainvoke-Ends st = Ends-bind _ _ (cartographer-Ends st) λ mapped (rs, e, m).
      Ends-bind _ _ (investigate_and_judge-Ends deps h mapped) λ assessed (new, f, a).
        Ends-bind _ _ (h.asks _ _) λ summary _. Ends-pure _ (
          rs,
          new,
          strip summary,
          ap {A = AuditState} (λ s. record s { summary = strip summary }) f
              ∙ ap {A = AuditState}
                  (λ s. record s { findings = s.findings ++ new; summary = strip summary }) e,
          m,
          subst
              (λ s.
                Answers (Sources deps) s.regulation_id (drop (length s.findings) s.requirements)
                  new)
              e a,
        )
