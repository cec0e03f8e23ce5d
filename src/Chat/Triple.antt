-- ===== src/Chat/Triple.antt =====
-- Claims on the events and the variables of a reply, before and after a part of it: one rule for
-- each way to build it. The world is left out: what is proved holds whatever the components and
-- the client do.
use sovereign_rag.Base.{◌≡◌, refl, List, [], ◌∷◌, ◌++◌, Bool, true, false}
use sovereign_rag.Effects.{
  Fault, Outcome, ok, raised, cancelled, Run, continue, pure, raise, lift, ◌>>=◌,
}
use sovereign_rag.Chat.Session.{
  ChatEvent, ChatDeps, Turn, Live, Reply, or_cancelled, on_world, assign, reads, yield_event,
}

abbrev pub Claim : Type 0 → Type 0 → Type 1
Claim Time Score = List (ChatEvent Score) → Turn Time Score → Type 0

module _ {W Time Score : Type 0} where
  -- what holds after a value, or after a fault
  abbrev pub Holds :
      {A : Type 0}
      → (A → Claim Time Score)
      → (Fault → Claim Time Score)
      → Outcome A × Live W Time Score
      → Type 0
  Holds Q X (ok a, s) = Q a s.sent s.turn
  Holds Q X (raised e, s) = X e s.sent s.turn

  pub record Triple {A : Type 0} (P : Claim Time Score) (Q : A → Claim Time Score)
      (X : Fault → Claim Time Score) (m : Reply W Time Score A) : Type 0 where
    pub at : (s : Live W Time Score) → P s.sent s.turn → Holds Q X (m s)

module _ {W Time Score A : Type 0} {P : Claim Time Score} {Q : A → Claim Time Score}
    {X : Fault → Claim Time Score} where
  pub Triple-pure :
      (a : A)
      → ((sent : List (ChatEvent Score)) (t : Turn Time Score) → P sent t → Q a sent t)
      → Triple {W = W} P Q X (pure a)
  unfolding pure
  Triple-pure a h = record { at = λ s p. h s.sent s.turn p }

  pub Triple-raise :
      (e : Fault)
      → ((sent : List (ChatEvent Score)) (t : Turn Time Score) → P sent t → X e sent t)
      → Triple {W = W} {A = A} P Q X (raise e)
  unfolding raise
  Triple-raise e h = record { at = λ s p. h s.sent s.turn p }

module _ {W Time Score A B : Type 0} {Q : A → Claim Time Score} {R : B → Claim Time Score}
    {X : Fault → Claim Time Score} where
  Holds-continue :
      (r : Outcome A) (f : A → Reply W Time Score B) (s : Live W Time Score)
      → Holds Q X (r, s)
      → ((a : A) → Triple (Q a) R X (f a))
      → Holds R X (continue r f s)
  Holds-continue (ok a) f s h k = (k a).at s h
  Holds-continue (raised e) f s h k = h

  pub Triple-bind :
      {P : Claim Time Score} (m : Reply W Time Score A) (f : A → Reply W Time Score B)
      → Triple P Q X m
      → ((a : A) → Triple (Q a) R X (f a))
      → Triple P R X (m >>= f)
  unfolding ◌>>=◌
  Triple-bind m f h k = record { at = λ s p. Holds-continue (m s).0 f (m s).1 (h.at s p) k }

-- parts that leave the events and the variables as they are
module _ {W Time Score A : Type 0} (P : Claim Time Score) (X : Fault → Claim Time Score)
    (fails : (e : Fault) (sent : List (ChatEvent Score)) (t : Turn Time Score)
      → P sent t
      → X e sent t) where
  Holds-kept : (r : Outcome A) (s : Live W Time Score) → P s.sent s.turn → Holds (λ _. P) X (r, s)
  Holds-kept (ok a) s p = p
  Holds-kept (raised e) s p = fails e s.sent s.turn p

  pub Triple-on_world : (m : Run W A) → Triple P (λ _. P) X (on_world m)
  unfolding on_world
  Triple-on_world m = record {
    at = λ s p. Holds-kept (m s.world).0 (record s { world = (m s.world).1 }) p;
  }

  pub Triple-lift : (r : Outcome A) → Triple {W = W} P (λ _. P) X (lift r)
  unfolding lift
  Triple-lift r = record { at = λ s p. Holds-kept r s p }

module _ {W Time Score : Type 0} (Q : Claim Time Score) (X : Fault → Claim Time Score) where
  Holds-yielded :
      (there : Bool) (s : Live W Time Score)
      → Q s.sent s.turn
      → X cancelled s.sent s.turn
      → Holds (λ _. Q) X (or_cancelled there, s)
  Holds-yielded true s q x = q
  Holds-yielded false s q x = x

module _ {W Time Score : Type 0} {P : Claim Time Score} {Q : Claim Time Score}
    {X : Fault → Claim Time Score} where
  pub Triple-assign :
      (f : Turn Time Score → Turn Time Score)
      → ((sent : List (ChatEvent Score)) (t : Turn Time Score) → P sent t → Q sent (f t))
      → Triple {W = W} P (λ _. Q) X (assign f)
  unfolding assign
  Triple-assign f h = record { at = λ s p. h s.sent s.turn p }

  -- The event is out whether or not the client is still there.
  pub Triple-yield_event :
      {Vector : Type 0} (deps : ChatDeps W Time Vector Score) (event : ChatEvent Score)
      → ((sent : List (ChatEvent Score)) (t : Turn Time Score)
          → P sent t
          → Q (sent ++ event ∷ []) t)
      → ((sent : List (ChatEvent Score)) (t : Turn Time Score)
          → P sent t
          → X cancelled (sent ++ event ∷ []) t)
      → Triple P (λ _. Q) X (yield_event deps event)
  unfolding yield_event
  Triple-yield_event deps event h k = record {
    at = λ s p.
        Holds-yielded Q X (deps.receive event s.world).0
          (record s { world = (deps.receive event s.world).1; sent = s.sent ++ event ∷ [] })
          (h s.sent s.turn p) (k s.sent s.turn p);
  }

module _ {W Time Score A : Type 0} {P : Claim Time Score} {X : Fault → Claim Time Score} where
  -- the value read is the variable's
  pub Triple-reads :
      (f : Turn Time Score → A) → Triple {W = W} P (λ a sent t. (f t ≡ a) × P sent t) X (reads f)
  unfolding reads
  Triple-reads f = record { at = λ s p. (refl, p) }
