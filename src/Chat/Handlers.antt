-- ===== src/Chat/Handlers.antt =====
-- What the `except` clauses of `stream_reply` leave of a turn
-- (backend/src/sovereign_rag/chat/service.py).
use sovereign_rag.Base.{
  ◌≡◌, refl, sym, ap, ◌∙◌, subst, ◌⊎◌, inl, inr, Option, none, some, List, [], ◌∷◌, ◌++◌,
  if◌then◌else◌,
}
use sovereign_rag.Text.{Text, codes}
use sovereign_rag.Effects.{
  provider_error, value_error, cancelled, other_error, extraction_error, Outcome, ok, raised, ◌>>=◌,
  ◌>>◌, raise, pure,
}
use sovereign_rag.Store.{Uuid}
use sovereign_rag.Chat.Prompts.{SourceOut}
use sovereign_rag.Chat.Session.{ChatEvent, error, ChatDeps, Turn, Live, Reply, assign, yield_event}
use sovereign_rag.Chat.Transcript.{
  Phase, opening, running, answering, complete, broken, hear_phase, phase_of, text_of, sources_of,
}
use sovereign_rag.Chat.Triple.{Claim, Holds, Triple, Triple-bind, Triple-assign, Triple-yield_event}
use sovereign_rag.Chat.Order.{
  Shown, IsOpen, IsComplete, Interrupted, phase_of-append, text_of-append, sources_of-append,
}
use sovereign_rag.Chat.Service.{handle_fault, handle_outcome, guarded}

-- the sources listed, if any were, are the recorded ones
abbrev pub Listed : {Score : Type 0} → List (ChatEvent Score) → List (SourceOut Score) → Type 0
Listed sent recorded = (sources_of sent ≡ none) ⊎ (sources_of sent ≡ some recorded)

-- the two codes that an `error` event carries
abbrev pub IsErrorCode : Text → Type 0
IsErrorCode code = (code ≡ codes "provider_error") ⊎ (code ≡ codes "internal_error")

-- after an `error` event
pub record IsBroken {Time Score : Type 0} (sent : List (ChatEvent Score)) (t : Turn Time Score)
    : Type 0 where
  pub in_phase : phase_of sent ≡ some broken
  pub told : text_of sent ≡ t.accumulated
  pub listed : Listed sent t.recorded_sources
  pub failure :
      (code detail : Text) × (t.error_code ≡ some code)
      × IsErrorCode code
      × ((before : List (ChatEvent Score)) × (sent ≡ before ++ error code detail ∷ []))

-- the client left before `done` or `error`
pub record IsAbandoned {Time Score : Type 0} (sent : List (ChatEvent Score)) (t : Turn Time Score)
    : Type 0 where
  pub in_phase :
      (p : Phase) × (phase_of sent ≡ some p) × ((p ≡ opening) ⊎ ((p ≡ running) ⊎ (p ≡ answering)))
  pub told : text_of sent ≡ t.accumulated
  pub listed : Listed sent t.recorded_sources
  pub failed : t.error_code ≡ some (codes "client_disconnect")

-- no exception but a cancellation comes out
abbrev pub Leaves : Outcome (Unit {0}) → Type 0
Leaves out = (out ≡ ok tt) ⊎ (out ≡ raised cancelled)

abbrev pub Settled :
    {Time Score : Type 0}
    → Uuid
    → Outcome (Unit {0})
    → List (ChatEvent Score)
    → Turn Time Score
    → Type 0
Settled message_id out sent t =
    IsComplete message_id sent t × Leaves out
    ⊎ (IsAbandoned sent t × (out ≡ raised cancelled) ⊎ IsBroken sent t × Leaves out)

module _ {Score : Type 0} where
  Shown-Listed :
      (p : Phase) (sent : List (ChatEvent Score)) (xs : List (SourceOut Score))
      → Shown p (sources_of sent) xs
      → Listed sent xs
  Shown-Listed opening sent xs h = inl h
  Shown-Listed running sent xs h = inl h
  Shown-Listed answering sent xs h = inr h
  Shown-Listed complete sent xs h = absurd h
  Shown-Listed broken sent xs h = absurd h

  Shown-breaks :
      (p : Phase) (o : Option (List (SourceOut Score))) (xs : List (SourceOut Score))
      (code detail : Text)
      → Shown p o xs
      → hear_phase {Score = Score} (some p) (error code detail) ≡ some broken
  Shown-breaks opening o xs code detail h = refl
  Shown-breaks running o xs code detail h = refl
  Shown-breaks answering o xs code detail h = refl
  Shown-breaks complete o xs code detail h = absurd h
  Shown-breaks broken o xs code detail h = absurd h

  Shown-open :
      (p : Phase) (o : Option (List (SourceOut Score))) (xs : List (SourceOut Score))
      → Shown p o xs
      → (p ≡ opening) ⊎ ((p ≡ running) ⊎ (p ≡ answering))
  Shown-open opening o xs h = inl refl
  Shown-open running o xs h = inr (inl refl)
  Shown-open answering o xs h = inr (inr refl)
  Shown-open complete o xs h = absurd h
  Shown-open broken o xs h = absurd h

module _ {Time Score : Type 0} where
  -- the `error` event after the code is assigned
  breaks :
      (p : Phase) (code detail : Text) (sent : List (ChatEvent Score)) (t : Turn Time Score)
      → IsErrorCode code
      → IsOpen p sent t
      → IsBroken (sent ++ error code detail ∷ []) (record t { error_code = some code })
  breaks p code detail sent t c o = record {
    in_phase =
        phase_of-append sent _
        ∙ ap (λ x. hear_phase {Score = Score} x (error code detail)) o.in_phase
        ∙ Shown-breaks p _ _ code detail o.shown;
    told = text_of-append sent _ ∙ o.told;
    listed =
        subst (λ x. (x ≡ none) ⊎ (x ≡ some t.recorded_sources))
          (sym (sources_of-append sent (error code detail)))
          (Shown-Listed p sent t.recorded_sources o.shown);
    failure = (code, detail, refl, c, (sent, refl));
  }

  abandons :
      (p : Phase) (sent : List (ChatEvent Score)) (t : Turn Time Score)
      → IsOpen p sent t
      → IsAbandoned sent
          (if t.is_finished then t else record t { error_code = some (codes "client_disconnect") })
  abandons p sent t o = rw o.unfinished (record {
    in_phase = (p, o.in_phase, Shown-open p _ _ o.shown);
    told = o.told;
    listed = Shown-Listed p sent t.recorded_sources o.shown;
    failed = refl;
  })

module _ {W Time Vector Score : Type 0} (deps : ChatDeps W Time Vector Score)
    (message_id : Uuid) where
  Settled-broken :
      (r : Outcome (Unit {0})) (s : Live W Time Score)
      → Holds (λ _. IsBroken) (λ e sent t. (e ≡ cancelled) × IsBroken sent t) (r, s)
      → Settled message_id r s.sent s.turn
  Settled-broken (ok _) s h = inr (inr (h, inl refl))
  Settled-broken (raised e) s h = inr (inr (h.1, inr (ap raised h.0)))

  reports :
      (p : Phase) (code detail : Text)
      → IsErrorCode code
      → Triple {W = W}
          (IsOpen p)
          (λ _. IsBroken)
          (λ e sent t. (e ≡ cancelled) × IsBroken sent t)
          (do
            assign (λ t. record t { error_code = some code })
            yield_event deps (error code detail))
  reports p code detail c =
      let marked : Turn Time Score → Turn Time Score = λ t. record t { error_code = some code } in
      let next : (sent : List (ChatEvent Score)) (t : Turn Time Score)
          → (t0 : Turn Time Score) × IsOpen p sent t0 × (t ≡ marked t0)
          → IsBroken (sent ++ error code detail ∷ []) t =
        λ sent t (t0, o, e).
          subst (IsBroken (sent ++ error code detail ∷ [])) (sym e)
            (breaks p code detail sent t0 c o) in
      Triple-bind {Q = λ _ sent t. (t0 : Turn Time Score) × IsOpen p sent t0 × (t ≡ marked t0)} _ _
        (Triple-assign marked (λ sent t o. (t, o, refl)))
        (λ _. Triple-yield_event deps (error code detail) next (λ sent t h. (refl, next sent t h)))

  abbrev pub SettledAfter : Outcome (Unit {0}) × Live W Time Score → Type 0
  SettledAfter (r, s) = Settled message_id r s.sent s.turn

  handle_outcome-Settled :
      (r : Outcome (Unit {0})) (s : Live W Time Score)
      → Holds (λ _. IsComplete message_id) (Interrupted message_id) (r, s)
      → SettledAfter (handle_outcome deps r s)
  unfolding handle_fault pure assign raise ◌>>=◌
  handle_outcome-Settled (ok _) s h = inl (h, inl refl)
  handle_outcome-Settled (raised (provider_error d)) s (inl (p, o)) =
      Settled-broken _ _ ((reports p (codes "provider_error") d (inl refl)).at s o)
  handle_outcome-Settled (raised (provider_error d)) s (inr (e, c)) = absurd (cc e)
  handle_outcome-Settled (raised value_error) s (inl (p, o)) =
      Settled-broken _ _ ((reports p (codes "internal_error") _ (inr refl)).at s o)
  handle_outcome-Settled (raised value_error) s (inr (e, c)) = absurd (cc e)
  handle_outcome-Settled (raised (extraction_error d)) s (inl (p, o)) =
      Settled-broken _ _ ((reports p (codes "internal_error") _ (inr refl)).at s o)
  handle_outcome-Settled (raised (extraction_error d)) s (inr (e, c)) = absurd (cc e)
  handle_outcome-Settled (raised (other_error d)) s (inl (p, o)) =
      Settled-broken _ _ ((reports p (codes "internal_error") _ (inr refl)).at s o)
  handle_outcome-Settled (raised (other_error d)) s (inr (e, c)) = absurd (cc e)
  handle_outcome-Settled (raised cancelled) s (inl (p, o)) =
      inr (inl (abandons p s.sent s.turn o, refl))
  handle_outcome-Settled (raised cancelled) s (inr (e, c)) = inl (
    subst
        (λ b.
          IsComplete message_id s.sent
            (if b then s.turn else record s.turn { error_code = some (codes "client_disconnect") }))
        (sym c.over) c,
    inr refl,
  )

  pub guarded-Settled :
      (body : Reply W Time Score (Unit {0})) (P : Claim Time Score) (s : Live W Time Score)
      → Triple P (λ _. IsComplete message_id) (Interrupted message_id) body
      → P s.sent s.turn
      → SettledAfter (guarded deps body s)
  unfolding guarded
  guarded-Settled body P s h p = handle_outcome-Settled (body s).0 (body s).1 (h.at s p)
