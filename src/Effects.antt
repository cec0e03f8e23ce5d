-- ===== src/Effects.antt =====
-- What an asynchronous call does: it returns or raises, and it changes the world (services,
-- database, clock) that it talks to. `Fault` is the part of Python's exception hierarchy that the
-- program's `except` clauses tell apart (errors.py, and the built-in classes).
use sovereign_rag.Base.{refl, ◌≡◌, ◌⊎◌, inl, inr}
use sovereign_rag.Text.{Text}

pub data Fault : Type 0 where
  -- errors.ProviderError
  provider_error : Text → Fault
  -- errors.ExtractionError
  extraction_error : Text → Fault
  -- ValueError, and json.JSONDecodeError below it
  value_error : Fault
  -- asyncio.CancelledError and GeneratorExit, which no `except Exception` takes
  cancelled : Fault
  -- any other exception
  other_error : Text → Fault

pub data Outcome (A : Type 0) : Type 0 where
  ok : A → Outcome A
  raised : Fault → Outcome A

abbrev pub Run : Type 0 → Type 0 → Type 0
Run W A = W → Outcome A × W

module _ {W A : Type 0} where
  unfoldable pub pure : A → Run W A
  pure a w = (ok a, w)

  unfoldable pub raise : Fault → Run W A
  raise e w = (raised e, w)

  unfoldable pub lift : Outcome A → Run W A
  lift r w = (r, w)

module _ {W A B : Type 0} where
  abbrev pub continue : Outcome A → (A → Run W B) → Run W B
  continue (ok a) f w = f a w
  continue (raised e) f w = (raised e, w)

  infixl 10 ◌>>=◌ ◌>>◌
  -- opening this opens `pure`, `raise` and `lift` too
  unfoldable pub ◌>>=◌ : Run W A → (A → Run W B) → Run W B
  unfolding pure raise lift
  ◌>>=◌ m f w = continue (m w).0 f (m w).1

  abbrev pub ◌>>◌ : Run W A → Run W B → Run W B
  m >> n = m >>= λ _. n

module _ {W A : Type 0} where
  unfoldable pub handle : Outcome A → Run W A → Run W A
  handle (raised value_error) handler w = handler w
  handle r handler w = (r, w)

  -- `try: m` with `except ValueError: handler`
  unfoldable pub catch_value : Run W A → Run W A → Run W A
  unfolding handle
  catch_value m handler w = handle (m w).0 handler (m w).1

-- How an action may end, whatever the world: with a value of `P`, or with a fault of `E`.
abbrev pub Allowed : {A : Type 0} → (A → Type 0) → (Fault → Type 0) → Outcome A → Type 0
Allowed P E (ok a) = P a
Allowed P E (raised e) = E e

pub record Ends {W A : Type 0} (P : A → Type 0) (E : Fault → Type 0) (m : Run W A) : Type 0 where
  pub at : (w : W) → Allowed P E (m w).0

abbrev pub Anything : {A : Type 0} → A → Type 0
Anything a = Unit

abbrev pub Never : Fault → Type 0
Never e = ⊥

module _ {W A : Type 0} {P : A → Type 0} {E : Fault → Type 0} where
  pub Ends-pure : (a : A) → P a → Ends {W = W} P E (pure a)
  unfolding pure
  Ends-pure a h = record { at = λ w. h }

  pub Ends-lift : (r : Outcome A) → Allowed P E r → Ends {W = W} P E (lift r)
  unfolding lift
  Ends-lift r h = record { at = λ w. h }

  handle-Allowed :
      (r : Outcome A) (handler : Run W A) (w : W)
      → Allowed P (λ e. (e ≡ value_error) ⊎ E e) r
      → Ends P E handler
      → Allowed P E (handle r handler w).0
  unfolding handle
  handle-Allowed (ok a) handler w h k = h
  handle-Allowed (raised value_error) handler w h k = k.at w
  handle-Allowed (raised (provider_error t)) handler w (inl h) k = absurd (cc h)
  handle-Allowed (raised (provider_error t)) handler w (inr h) k = h
  handle-Allowed (raised (extraction_error t)) handler w (inl h) k = absurd (cc h)
  handle-Allowed (raised (extraction_error t)) handler w (inr h) k = h
  handle-Allowed (raised cancelled) handler w (inl h) k = absurd (cc h)
  handle-Allowed (raised cancelled) handler w (inr h) k = h
  handle-Allowed (raised (other_error t)) handler w (inl h) k = absurd (cc h)
  handle-Allowed (raised (other_error t)) handler w (inr h) k = h

  -- The handler takes the value errors away.
  pub Ends-catch_value :
      (m handler : Run W A)
      → Ends P (λ e. (e ≡ value_error) ⊎ E e) m
      → Ends P E handler
      → Ends P E (catch_value m handler)
  unfolding catch_value
  Ends-catch_value m handler h k = record {
    at = λ w. handle-Allowed (m w).0 handler (m w).1 (h.at w) k;
  }

module _ {W A B : Type 0} {P : A → Type 0} {Q : B → Type 0} {E : Fault → Type 0} where
  continue-Allowed :
      (r : Outcome A) (f : A → Run W B) (w : W)
      → Allowed P E r
      → ((a : A) → P a → Ends Q E (f a))
      → Allowed Q E (continue r f w).0
  continue-Allowed (ok a) f w h k = (k a h).at w
  continue-Allowed (raised e) f w h k = h

  pub Ends-bind :
      (m : Run W A) (f : A → Run W B)
      → Ends P E m
      → ((a : A) → P a → Ends Q E (f a))
      → Ends Q E (m >>= f)
  unfolding ◌>>=◌
  Ends-bind m f h k = record { at = λ w. continue-Allowed (m w).0 f (m w).1 (h.at w) k }

module _ {A : Type 0} {P Q : A → Type 0} {E F : Fault → Type 0} where
  pub weaken-Allowed :
      (r : Outcome A)
      → Allowed P E r
      → ((a : A) → P a → Q a)
      → ((e : Fault) → E e → F e)
      → Allowed Q F r
  weaken-Allowed (ok a) h p e = p a h
  weaken-Allowed (raised x) h p e = e x h

  pub Ends-weaken :
      {W : Type 0} (m : Run W A)
      → Ends P E m
      → ((a : A) → P a → Q a)
      → ((e : Fault) → E e → F e)
      → Ends Q F m
  Ends-weaken m h p e = record { at = λ w. weaken-Allowed (m w).0 (h.at w) p e }

Allowed-Anything : {A : Type 0} (r : Outcome A) → Allowed Anything Anything r
Allowed-Anything (ok a) = tt
Allowed-Anything (raised e) = tt

-- the value that some run of the action returns
abbrev pub Returned : {W A : Type 0} → Run W A → A → Type 0
Returned {W} m a = (w : W) × ((m w).0 ≡ ok a)

pub Ends-Returned :
    {W A : Type 0} {P : A → Type 0} {E : Fault → Type 0} (m : Run W A)
    → Ends P E m
    → Ends (Returned m) E m
Ends-Returned {W = W} {A = A} {P = P} {E = E} m h = record { at = λ w. go w (m w).0 refl (h.at w) }
  where
    go : (w : W) (r : Outcome A) → (m w).0 ≡ r → Allowed P E r → Allowed (Returned m) E r
    go w (ok a) e k = (w, e)
    go w (raised x) e k = k

pub Ends-Anything : {W A : Type 0} (m : Run W A) → Ends Anything Anything m
Ends-Anything m = record { at = λ w. Allowed-Anything (m w).0 }
