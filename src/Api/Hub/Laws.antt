-- ===== src/Api/Hub/Laws.antt =====
-- internal/api/sse.go: no browser sees that there are others.
use temporal_serverless_rain.Base.{
  ℕ, suc, true, sym, ◌≤◌, ◌==◌, ltb, List, [], ◌∷◌, ◌++◌, Option, none, some, length, length-append,
  if◌then◌else◌, Bool-cases, inl, inr, ◌≡◌, refl, ap, ◌∙◌, arith,
}
use temporal_serverless_rain.Api.Hub.{
  buffer, Hub, Event, offer, tail, broadcast_to, delete, take_from, handle, channel, subscribe,
  unsubscribe, take, broadcast,
}

-- What happens to one browser's stream.
pub data Own {ℓ} (A : Type ℓ) : Type ℓ where
  open_stream close_stream next : Own A
  payload : A → Own A

ltb_lt : {m n : ℕ} → ltb m n ≡ true → suc m ≤ n
ltb_lt h = ground arith

module _ {ℓ} {A : Type ℓ} where
  -- The part of an event that concerns a browser.
  unfoldable pub own : ℕ → Event A → List (Own A)
  own i (subscribe j) = if i == j then Own.open_stream ∷ [] else []
  own i (unsubscribe j) = if i == j then Own.close_stream ∷ [] else []
  own i (take j) = if i == j then Own.next ∷ [] else []
  own i (broadcast p) = payload p ∷ []

  -- A stream on its own, with room for four payloads.
  unfoldable pub stream : Own A → Option (List A) → Option (List A)
  unfolding offer tail
  stream Own.open_stream w = some []
  stream Own.close_stream w = none
  stream o none = none
  stream Own.next (some ps) = some (tail ps)
  stream (payload p) (some ps) = some (offer p ps)

  unfoldable pub streams : List (Own A) → Option (List A) → Option (List A)
  unfolding stream
  streams [] w = w
  streams (o ∷ os) w = streams os (stream o w)

  channel-delete :
      (i j : ℕ) (h : Hub A) → channel i (delete j h) ≡ (if i == j then none else channel i h)
  unfolding channel delete
  channel-delete i j [] = ground arith
  channel-delete i j ((k, ps) ∷ h) = ground (arith, channel-delete i j h)

  channel-take_from :
      (i j : ℕ) (h : Hub A)
      → channel i (take_from j h) ≡ (if i == j then stream Own.next (channel i h) else channel i h)
  unfolding channel take_from stream
  channel-take_from i j [] = ground arith
  channel-take_from i j ((k, ps) ∷ h) = ground (arith, channel-take_from i j h)

  channel-broadcast_to :
      (i : ℕ) (p : A) (h : Hub A) → channel i (broadcast_to p h) ≡ stream (payload p) (channel i h)
  unfolding channel broadcast_to stream
  channel-broadcast_to i p [] = refl
  channel-broadcast_to i p ((k, ps) ∷ h) = elim (Bool-cases (i == k)) [
    | inl e ↦ rw e (refl)
    | inr e ↦ rw e (channel-broadcast_to i p h)
  ]

  channel-handle :
      (i : ℕ) (e : Event A) (h : Hub A) → channel i (handle e h) ≡ streams (own i e) (channel i h)
  unfolding handle own streams
  channel-handle i (subscribe j) h = elim (Bool-cases (i == j)) [
    | inl e ↦ unfold channel stream in rw e (refl)
    | inr e ↦ unfold channel in rw (e, channel-delete i j h, e) (refl)
  ]
  channel-handle i (unsubscribe j) h = elim (Bool-cases (i == j)) [
    | inl e ↦ unfold stream in rw (channel-delete i j h, e) (refl)
    | inr e ↦ rw (channel-delete i j h, e) (refl)
  ]
  channel-handle i (take j) h = elim (Bool-cases (i == j)) [
    | inl e ↦ rw (channel-take_from i j h, e) (refl)
    | inr e ↦ rw (channel-take_from i j h, e) (refl)
  ]
  channel-handle i (broadcast p) h = channel-broadcast_to i p h

  streams-append :
      (os ps : List (Own A)) (w : Option (List A))
      → streams (os ++ ps) w ≡ streams ps (streams os w)
  unfolding streams
  streams-append [] ps w = refl
  streams-append (o ∷ os) ps w = streams-append os ps (stream o w)

  unfoldable pub run : List (Event A) → Hub A → Hub A
  run [] h = h
  run (e ∷ es) h = run es (handle e h)

  unfoldable pub owns : ℕ → List (Event A) → List (Own A)
  owns i [] = []
  owns i (e ∷ es) = own i e ++ owns i es

  channel-run :
      (i : ℕ) (es : List (Event A)) (h : Hub A)
      → channel i (run es h) ≡ streams (owns i es) (channel i h)
  unfolding run owns
  channel-run i [] h = unfold streams in refl
  channel-run i (e ∷ es) h =
      channel-run i es (handle e h)
      ∙ ap (streams (owns i es)) (channel-handle i e h)
      ∙ sym (streams-append (own i e) (owns i es) (channel i h))

  -- A channel never holds more than it has room for.
  abbrev pub Fits : Option (List A) → Type 0
  Fits none = Unit
  Fits (some ps) = length ps ≤ buffer

  stream-Fits : (o : Own A) (w : Option (List A)) → Fits w → Fits (stream o w)
  unfolding stream offer tail
  stream-Fits Own.open_stream w h = omega arith
  stream-Fits Own.close_stream w h = tt
  stream-Fits Own.next none h = tt
  stream-Fits Own.next (some []) h = omega arith
  stream-Fits Own.next (some (p ∷ ps)) h = omega arith
  stream-Fits (payload p) none h = tt
  stream-Fits (payload p) (some ps) h = elim (Bool-cases (ltb (length ps) buffer)) [
    | inl e ↦ rw e (omega (arith, length-append ps (p ∷ []), ltb_lt e))
    | inr e ↦ rw e h
  ]

  streams-Fits : (os : List (Own A)) (w : Option (List A)) → Fits w → Fits (streams os w)
  unfolding streams
  streams-Fits [] w h = h
  streams-Fits (o ∷ os) w h = streams-Fits os (stream o w) (stream-Fits o w h)

-- The hub refines one private stream for each browser: after any interleaving of browsers that
-- come, go and read with payloads that are sent, what waits for a browser is what a stream of its
-- own with room for four would hold after that browser's events and the payloads. So a browser
-- that does not keep up loses payloads of its own, and none of another's; and never do more than
-- four wait.
pub run_refines {ℓ} :
    {A : Type ℓ} (i : ℕ) (es : List (Event A))
    → (channel i (run es []) ≡ streams (owns i es) none) × Fits (channel i (run es []))
unfolding channel
run_refines i es = let e = channel-run i es [] in (e, rw e (streams-Fits (owns i es) none tt))
