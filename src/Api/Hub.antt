-- ===== src/Api/Hub.antt =====
-- internal/api/sse.go: the hub, which hands each payload to every browser that has room for it. A
-- subscriber is its channel, named by a number that no other has.
pub mod Laws
use temporal_serverless_rain.Base.{
  ℕ, ◌+◌, ◌==◌, ltb, List, [], ◌∷◌, ◌++◌, Option, none, some, map, length, if◌then◌else◌,
}

-- The room in a channel.
abbrev pub buffer : ℕ
buffer = 4

module _ {ℓ} (A : Type ℓ) where
  -- What waits in each channel.
  abbrev pub Hub : Type ℓ
  Hub = List (ℕ × List A)

  -- What happens to the hub: a browser comes, goes, or takes what waits first in its channel, and
  -- the poll loop sends a payload.
  pub data Event : Type ℓ where
    subscribe : ℕ → Event
    unsubscribe : ℕ → Event
    take : ℕ → Event
    broadcast : A → Event

module _ {ℓ} {A : Type ℓ} where
  -- A channel that is full is skipped.
  unfoldable pub offer : A → List A → List A
  offer p waiting = if ltb (length waiting) buffer then waiting ++ p ∷ [] else waiting

  unfoldable pub tail : List A → List A
  tail [] = []
  tail (p ∷ ps) = ps

  unfoldable pub broadcast_to : A → Hub A → Hub A
  unfolding offer
  broadcast_to p [] = []
  broadcast_to p ((k, waiting) ∷ h) = (k, offer p waiting) ∷ broadcast_to p h

  unfoldable pub delete : ℕ → Hub A → Hub A
  delete i [] = []
  delete i ((k, waiting) ∷ h) =
      let rest = delete i h in if i == k then rest else (k, waiting) ∷ rest

  unfoldable pub take_from : ℕ → Hub A → Hub A
  unfolding tail
  take_from i [] = []
  take_from i ((k, waiting) ∷ h) =
      let rest = take_from i h in if i == k then (k, tail waiting) ∷ rest else (k, waiting) ∷ rest

  unfoldable pub handle : Event A → Hub A → Hub A
  unfolding broadcast_to delete take_from
  handle (subscribe i) h = (i, []) ∷ delete i h
  handle (unsubscribe i) h = delete i h
  handle (take i) h = take_from i h
  handle (broadcast p) h = broadcast_to p h

  -- How many browsers are connected.
  unfoldable pub count : Hub A → ℕ
  count h = length h

  -- What waits for a subscriber, if it is one.
  unfoldable pub channel : ℕ → Hub A → Option (List A)
  channel i [] = none
  channel i ((k, waiting) ∷ h) = let rest = channel i h in if i == k then some waiting else rest
