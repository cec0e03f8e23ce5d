-- ===== src/Tables/Rows.antt =====
-- Laws of the statements on rows: what a lookup finds, and what a selection keeps.
use sovereign_rag.Base.{
  ◌==◌, ==_iff, ◌≡◌, refl, sym, ◌⊎◌, inl, inr, some, List, [], ◌∷◌, Bool, true, Bool-cases, arith,
  IsIn, select, exists_in,
}
use sovereign_rag.Text.{same_text_refl, Text, codes, same_text, same_text_sound}
use sovereign_rag.Store.{Uuid}
use sovereign_rag.Tables.{Document, Permission, is_granted, visible_to, document_of}

-- `p` is a grant of the document to the user or to everyone
pub record Grants (id : Uuid) (user_id : Text) (p : Permission) : Type 0 where
  pub of : p.document_id ≡ id
  pub to : (p.principal ≡ user_id) ⊎ (p.principal ≡ codes "*")

-- the rule in words: the user owns the document, or a row grants it
abbrev pub MaySee : Text → List Permission → Document → Type 0
MaySee user_id permissions d =
    (d.owner_id ≡ user_id) ⊎ ((p : Permission) × IsIn p permissions × Grants d.id user_id p)

module _ {A : Type 0} (test : A → Bool) where
  pub exists_in-IsIn :
      (xs : List A) → exists_in test xs ≡ true → (a : A) × IsIn a xs × (test a ≡ true)
  exists_in-IsIn [] h = absurd (cc h)
  exists_in-IsIn (x ∷ xs) h = elim (Bool-cases (test x)) [
    | inl e ↦ (x, inl refl, e)
    | inr e ↦ let (a, i, t) = exists_in-IsIn xs (ground arith) in (a, inr i, t)
  ]

  kept-IsIn :
      (a x : A) (xs : List A)
      → test x ≡ true
      → (IsIn a (select test xs) → IsIn a xs × (test a ≡ true))
      → (a ≡ x) ⊎ IsIn a (select test xs)
      → IsIn a (x ∷ xs) × (test a ≡ true)
  kept-IsIn a x xs e rest (inl same) = (inl same, rw same e)
  kept-IsIn a x xs e rest (inr more) = let (i, t) = rest more in (inr i, t)

  pub select-IsIn : (a : A) (xs : List A) → IsIn a (select test xs) → IsIn a xs × (test a ≡ true)
  select-IsIn a [] h = absurd h
  select-IsIn a (x ∷ xs) h = elim (Bool-cases (test x)) [
    | inl e ↦ kept-IsIn a x xs e (select-IsIn a xs) (rw e at h)
    | inr e ↦ let (i, t) = select-IsIn a xs (rw e at h) in (inr i, t)
  ]

pub document_of-IsIn :
    (id : Uuid) (documents : List Document) (d : Document)
    → document_of id documents ≡ some d
    → IsIn d documents × (d.id ≡ id)
unfolding document_of
document_of-IsIn id [] d e = absurd (cc e)
document_of-IsIn id (x ∷ documents) d e = elim (Bool-cases (x.id == id)) [
  | inl same ↦
      let found : x ≡ d = ground arith in
      (inl (sym found), rw (sym found) ((==_iff x.id id).0 same))
  | inr other ↦ let (i, k) = document_of-IsIn id documents d (ground arith) in (inr i, k)
]

is_granted-Grants :
    (id : Uuid) (user_id : Text) (p : Permission)
    → is_granted id user_id p ≡ true
    → Grants id user_id p
unfolding is_granted
is_granted-Grants id user_id p e = record {
  of = (==_iff p.document_id id).0 (ground arith);
  to = elim (Bool-cases (same_text p.principal user_id)) [
    | inl named ↦ inl (same_text_sound _ _ named)
    | inr other ↦ inr (same_text_sound _ _ (ground arith))
  ];
}

pub visible_to-MaySee :
    (user_id : Text) (permissions : List Permission) (d : Document)
    → visible_to user_id permissions d ≡ true
    → MaySee user_id permissions d
unfolding visible_to
visible_to-MaySee user_id permissions d e = elim (Bool-cases (same_text d.owner_id user_id)) [
  | inl own ↦ inl (same_text_sound _ _ own)
  | inr other ↦
      let (p, i, g) = exists_in-IsIn (is_granted d.id user_id) permissions (ground arith) in
      inr (p, i, is_granted-Grants d.id user_id p g)
]

module _ {A : Type 0} (test : A → Bool) where
  pub IsIn-exists_in : (a : A) (xs : List A) → IsIn a xs → test a ≡ true → exists_in test xs ≡ true
  IsIn-exists_in a [] i e = absurd i
  IsIn-exists_in a (x ∷ xs) (inl same) e = let at : test x ≡ true = rw (sym same) e in rw at
  IsIn-exists_in a (x ∷ xs) (inr i) e = ground (arith, IsIn-exists_in a xs i e)

  pub IsIn-select : (a : A) (xs : List A) → IsIn a xs → test a ≡ true → IsIn a (select test xs)
  IsIn-select a [] i e = absurd i
  IsIn-select a (x ∷ xs) (inl same) e = let at : test x ≡ true = rw (sym same) e in rw at (inl same)
  IsIn-select a (x ∷ xs) (inr i) e = elim (Bool-cases (test x)) [
    | inl kept ↦ rw kept (inr (IsIn-select a xs i e))
    | inr out ↦ rw out (IsIn-select a xs i e)
  ]

Grants-is_granted :
    (id : Uuid) (user_id : Text) (p : Permission)
    → Grants id user_id p
    → is_granted id user_id p ≡ true
unfolding is_granted
Grants-is_granted id user_id p g = elim g.to [
  | inl e ↦
      let named : same_text p.principal user_id ≡ true = rw e (same_text_refl user_id) in
      ground (arith, ==_iff p.document_id id, g.of)
  | inr e ↦
      let star : same_text p.principal (codes "*") ≡ true = rw e (same_text_refl (codes "*")) in
      ground (arith, ==_iff p.document_id id, g.of)
]

pub MaySee-visible_to :
    (user_id : Text) (permissions : List Permission) (d : Document)
    → MaySee user_id permissions d
    → visible_to user_id permissions d ≡ true
unfolding visible_to
MaySee-visible_to user_id permissions d (inl own) =
    let same : same_text d.owner_id user_id ≡ true = rw own (same_text_refl user_id) in rw same
MaySee-visible_to user_id permissions d (inr (p, i, g)) =
    let some_row =
      IsIn-exists_in (is_granted d.id user_id) p permissions i
        (Grants-is_granted d.id user_id p g) in
    ground arith
