-- ===== src/Chat/Parts.antt =====
-- What each small part of a reply does to the order of the events and to the variables
-- (backend/src/sovereign_rag/chat/service.py).
use sovereign_rag.Base.{◌≡◌, refl, sym, ap, subst, inl, Option, some, List, [], ◌∷◌, ◌++◌}
use sovereign_rag.Text.{Text}
use sovereign_rag.Effects.{Fault, Run}
use sovereign_rag.Store.{Uuid, SearchHit}
use sovereign_rag.Chat.Prompts.{SourceOut}
use sovereign_rag.Chat.Session.{
  ChatEvent, start, step, sources, delta, ChatDeps, Turn, Reply, on_world, assign, yield_event, now,
}
use sovereign_rag.Chat.Body.{tell, set_sources, start_clock, list_sources}
use sovereign_rag.Chat.Transcript.{Phase, opening, running, answering}
use sovereign_rag.Chat.Triple.{
  Claim, Triple, Triple-bind, Triple-on_world, Triple-assign, Triple-yield_event, Triple-reads,
}
use sovereign_rag.Chat.Order.{IsOpen, Interrupted, Shown, IsOpen-append}

module _ {W Time Vector Score : Type 0} (deps : ChatDeps W Time Vector Score)
    (message_id : Uuid) where
  abbrev pub At : Phase → Claim Time Score
  At p = IsOpen p

  abbrev pub Fails : Fault → Claim Time Score
  Fails = Interrupted message_id

  abbrev pub Part : (A : Type 0) → Phase → Phase → Reply W Time Score A → Type 0
  Part A p q m = Triple (At p) (λ _. At q) Fails m

  pub still :
      (p : Phase) (e : Fault) (sent : List (ChatEvent Score)) (t : Turn Time Score)
      → IsOpen p sent t
      → Fails e sent t
  still p e sent t o = inl (p, o)

  pub calls : {A : Type 0} (p : Phase) (m : Run W A) → Part A p p (on_world m)
  calls p m = Triple-on_world (At p) Fails (still p) m

  -- an event that tells no text and lists no sources
  says :
      (p q : Phase) (event : ChatEvent Score)
      → ((sent : List (ChatEvent Score)) (t : Turn Time Score)
          → IsOpen p sent t
          → IsOpen q (sent ++ event ∷ []) t)
      → Part (Unit {0}) p q (yield_event deps event)
  says p q event h = Triple-yield_event deps event h (λ sent t o. inl (q, h sent t o))

  pub starts : (conv_id : Uuid) → Part (Unit {0}) opening running (yield_event deps (start conv_id))
  starts conv_id = says opening running (start conv_id) λ sent t o.
      IsOpen-append opening running (start conv_id) sent t t o refl refl o.shown o.unfinished
        o.unfailed

  pub steps :
      (agent detail : Text) → Part (Unit {0}) running running (yield_event deps (step agent detail))
  steps agent detail = says running running (step agent detail) λ sent t o.
      IsOpen-append running running (step agent detail) sent t t o refl refl o.shown o.unfinished
        o.unfailed

  pub lists : Part (Unit {0}) running answering (list_sources deps)
  unfolding list_sources
  lists = Triple-bind _ _ (Triple-reads λ t. t.recorded_sources) λ xs.
      let next : (sent : List (ChatEvent Score)) (t : Turn Time Score)
          → (t.recorded_sources ≡ xs) × IsOpen running sent t
          → IsOpen answering (sent ++ sources xs ∷ []) t =
        λ sent t (e, o).
          IsOpen-append running answering (sources xs) sent t t o refl refl (ap some (sym e))
            o.unfinished o.unfailed in
      Triple-yield_event deps (sources xs) next (λ sent t h. inl (answering, next sent t h))

  -- variables that no claim reads may change
  pub sets :
      (p : Phase) (f : Turn Time Score → Turn Time Score)
      → ((sent : List (ChatEvent Score)) (t : Turn Time Score)
          → IsOpen p sent t
          → IsOpen p sent (f t))
      → Part (Unit {0}) p p (assign f)
  sets p f h = Triple-assign f h

  pub clock_starts : Part (Unit {0}) answering answering (start_clock deps)
  unfolding start_clock
  clock_starts = Triple-bind _ _ (calls answering (now deps)) λ t.
      sets answering (λ turn. record turn { generation_started = some t })
        λ sent turn o. record {
          in_phase = o.in_phase;
          told = o.told;
          shown = o.shown;
          unfinished = o.unfinished;
          unfailed = o.unfailed;
        }

  -- no sources are listed before they are known
  abbrev pub IsEarly : Phase → Type 0
  IsEarly opening = Unit
  IsEarly running = Unit
  IsEarly _ = ⊥

  early :
      (p : Phase) (o : Option (List (SourceOut Score))) (xs ys : List (SourceOut Score))
      → IsEarly p
      → Shown p o xs
      → Shown p o ys
  early opening o xs ys i h = h
  early running o xs ys i h = h
  early _ o xs ys i h = absurd i

  pub sets_sources :
      (p : Phase) (t0 : Time) (hits : List (SearchHit Score))
      → IsEarly p
      → Part (Unit {0}) p p (set_sources deps t0 hits)
  unfolding set_sources
  sets_sources p t0 hits i = Triple-bind _ _ (calls p (now deps)) λ t1. sets p _ λ sent turn o.
      record {
        in_phase = o.in_phase;
        told = o.told;
        shown = early p _ _ _ i o.shown;
        unfinished = o.unfinished;
        unfailed = o.unfailed;
      }

  pub tells : (piece : Text) → Part (Unit {0}) answering answering (tell deps piece)
  unfolding tell
  tells piece =
      let ahead : Turn Time Score → Turn Time Score =
        λ t. record t { accumulated = t.accumulated ++ piece } in
      let next : (sent : List (ChatEvent Score)) (t : Turn Time Score)
          → (t0 : Turn Time Score) × IsOpen answering sent t0 × (t ≡ ahead t0)
          → IsOpen answering (sent ++ delta piece ∷ []) t =
        λ sent t (t0, o, e). subst (IsOpen answering (sent ++ delta piece ∷ [])) (sym e) (
          IsOpen-append answering answering (delta piece) sent t0 (ahead t0) o refl refl o.shown
            o.unfinished o.unfailed) in
      Triple-bind
        {Q = λ _ sent t. (t0 : Turn Time Score) × IsOpen answering sent t0 × (t ≡ ahead t0)} _ _
        (Triple-assign ahead (λ sent t o. (t, o, refl)))
        (λ _.
          Triple-yield_event deps (delta piece) next (λ sent t h. inl (answering, next sent t h)))
