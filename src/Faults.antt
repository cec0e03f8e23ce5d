-- ===== src/Faults.antt =====
-- Pure code that may raise: `Outcome` as a monad of its own.
use sovereign_rag.Base.{List, [], ◌∷◌, ◌++◌}
use sovereign_rag.Effects.{Fault, Outcome, ok, raised, Allowed}

module _ {A B : Type 0} where
  infixl 10 ◌>>=◌
  abbrev pub ◌>>=◌ : Outcome A → (A → Outcome B) → Outcome B
  ok a >>= f = f a
  raised e >>= f = raised e

  pub Allowed-bind :
      (P : A → Type 0) (Q : B → Type 0) (E : Fault → Type 0) (r : Outcome A) (f : A → Outcome B)
      → Allowed P E r
      → ((a : A) → P a → Allowed Q E (f a))
      → Allowed Q E (r >>= f)
  Allowed-bind P Q E (ok a) f h k = k a h
  Allowed-bind P Q E (raised e) f h k = h

  -- `for x in xs: out.extend(f(x))`
  unfoldable pub concat_each : (A → Outcome (List B)) → List A → Outcome (List B)
  concat_each f [] = ok []
  concat_each f (x ∷ xs) =
      let rest = concat_each f xs in
      elim (f x) [
        | ok here ↦ elim rest [ ok more ↦ ok (here ++ more) | raised e ↦ raised e ]
        | raised e ↦ raised e
      ]

-- what every call gives, the whole list has, if lists of it can be appended
module _ {A B : Type 0} (R : List A → List B → Type 0) (E : Fault → Type 0)
    (f : A → Outcome (List B)) where
  extend :
      (x : A) (xs : List A) (here more : Outcome (List B))
      → ((bs : List B) (cs : List B) → R (x ∷ []) bs → R xs cs → R (x ∷ xs) (bs ++ cs))
      → Allowed (R (x ∷ [])) E here
      → Allowed (R xs) E more
      → Allowed (R (x ∷ xs)) E (elim here [
        | ok bs ↦ elim more [ ok cs ↦ ok (bs ++ cs) | raised e ↦ raised e ]
        | raised e ↦ raised e
      ])
  extend x xs (ok bs) (ok cs) app h k = app bs cs h k
  extend x xs (ok bs) (raised e) app h k = k
  extend x xs (raised e) more app h k = h

  pub concat_each-Allowed :
      R [] []
      → ((x : A) (xs : List A) (bs cs : List B) → R (x ∷ []) bs → R xs cs → R (x ∷ xs) (bs ++ cs))
      → ((x : A) → Allowed (R (x ∷ [])) E (f x))
      → (xs : List A) → Allowed (R xs) E (concat_each f xs)
  unfolding concat_each
  concat_each-Allowed base app each [] = base
  concat_each-Allowed base app each (x ∷ xs) =
      extend x xs (f x) (concat_each f xs) (app x xs) (each x)
        (concat_each-Allowed base app each xs)
