-- ===== src/Api/Bootstrap/Laws.antt =====
-- internal/api/bootstrap.go: the bootstrap ends, and promotes only v1 and only where nothing is
-- current.
use temporal_serverless_rain.Base.{
  String, str_eq, eq_iff, ℕ, zero, suc, ◌*◌, ◌≤◌, ℤ, pos, ◌+ℤ◌, ◌≤ℤ◌, ◌<ℤ◌, ltb_ℤ, int_laws, true,
  false, Bool-cases, ◌⊎◌, inl, inr, ◌≡◌, ◌≢◌, refl, Option, none, some, List, [], ◌∷◌, length,
  arith,
}
use temporal_serverless_rain.Orders.Version.{v1}
use temporal_serverless_rain.Deploy.Restore.{Write, set_current}
use temporal_serverless_rain.Deploy.Describe.{find_label}
use temporal_serverless_rain.Api.Snapshot.{Deployment}
use temporal_serverless_rain.Api.Bootstrap.{
  Round, waiting, Trace, pause, promote, round, rounds, ensure_current_version, bootstrap_timeout,
  round_wait,
}

-- Rounds whose clock goes on by the wait between them, from a time.
abbrev pub IsTicking : ℤ → List Round → Type 0
IsTicking now [] = Unit
IsTicking now (r ∷ rs) = (now ≤ℤ r.now) × IsTicking (r.now +ℤ round_wait) rs

-- Whether the loop goes on depends on the deadline alone, if it has not ended before.
abbrev Ended : Trace → Type 0
Ended t = t.0 ≢ waiting

promote-Ended :
    (r : Round) (b : Option String) (next : Trace) → Ended next → Ended (promote r b next)
unfolding promote
promote-Ended r none next h = h
promote-Ended r (some b) next h = elim (Bool-cases r.taken) [
  | inl e ↦ simp (e) (λ q. cc)
  | inr e ↦ simp (e) (h)
]

pause-Ended :
    (deadline : ℤ) (r : Round) (next : Trace)
    → (ltb_ℤ deadline r.now ≡ true) ⊎ Ended next
    → Ended (pause deadline r next)
unfolding pause
pause-Ended deadline r next h = elim (Bool-cases (ltb_ℤ deadline r.now)) [
  | inl e ↦ simp (e) (λ q. cc)
  | inr e ↦ simp (e) (elim (Bool-cases r.cancelled) [
    | inl f ↦ simp (f) (λ q. cc)
    | inr f ↦ simp (f) (elim h [ inl l ↦ absurd (ground arith) | inr n ↦ n ])
  ])
]

round-Ended :
    (deadline : ℤ) (r : Round) (d : Option Deployment) (next : Trace)
    → (ltb_ℤ deadline r.now ≡ true) ⊎ Ended next
    → Ended (round deadline r d next)
unfolding round
round-Ended deadline r none next h = pause-Ended deadline r next h
round-Ended deadline r (some d) next h = elim (Bool-cases (str_eq d.routing.current_build_id "")) [
  | inl e ↦ simp (e) (
      promote-Ended r (find_label v1 d.versions) (pause deadline r next)
        (pause-Ended deadline r next h))
  | inr e ↦ simp (e) (λ q. cc)
]

over :
    (deadline : ℤ) (r : Round) (now : ℤ)
    → now ≤ℤ r.now
    → deadline +ℤ pos 1 ≤ℤ now +ℤ pos (0 * (2 * 1_000_000_000))
    → ltb_ℤ deadline r.now ≡ true
over deadline r now t h = let l : deadline <ℤ r.now = omega (int_laws, t, h) in ground arith

-- With `n` rounds, two seconds apart, to the deadline or past it.
rounds-Ended :
    (n : ℕ) (rs : List Round) (now deadline : ℤ)
    → IsTicking now rs
    → suc n ≤ length rs
    → deadline +ℤ pos 1 ≤ℤ now +ℤ pos (n * (2 * 1_000_000_000))
    → Ended (rounds deadline rs)
unfolding rounds
rounds-Ended n [] now deadline t l h = absurd (omega arith)
rounds-Ended zero (r ∷ rs) now deadline t l h =
    round-Ended deadline r r.described (rounds deadline rs) (inl (over deadline r now t.0 h))
rounds-Ended (suc n) (r ∷ rs) now deadline t l h =
    round-Ended deadline r r.described (rounds deadline rs) (
      inr (
        rounds-Ended n rs (r.now +ℤ round_wait) deadline t.1 (omega arith)
          (omega (int_laws, t.0, h))))

-- The bootstrap ends: where each round begins two seconds or more after the one before, it makes no
-- more than 62 rounds, whatever the server answers and whichever writes it refuses.
pub ensure_current_version-Ends :
    (start : ℤ) (rs : List Round)
    → IsTicking start rs
    → 62 ≤ length rs
    → (ensure_current_version start rs).0 ≢ waiting
unfolding ensure_current_version
ensure_current_version-Ends start rs t l =
    rounds-Ended 61 rs start (start +ℤ bootstrap_timeout) t l (omega int_laws)

-- A round in which nothing is current and the first version labelled v1 has this build.
abbrev pub HasFirst : String → Round → Type 0
HasFirst b r =
    (d : Deployment) × ((r.described ≡ some d)
      × ((d.routing.current_build_id ≡ "") × (find_label v1 d.versions ≡ some b)))

-- The writes of some rounds, one after the other: a round makes no write, or one, which makes
-- Current the first v1 that it has itself found registered while nothing was current. A write that
-- the server takes is the last, and one that it refuses may be followed by those of later rounds.
pub data IsBootstrap : List Round → List Write → Type 0 where
  silent : (rs : List Round) → IsBootstrap rs []
  passes :
      (r : Round) {rs : List Round} {ws : List Write} → IsBootstrap rs ws → IsBootstrap (r ∷ rs) ws
  taken :
      {r : Round} {b : String} (rs : List Round)
      → HasFirst b r
      → r.taken ≡ true
      → IsBootstrap (r ∷ rs) (set_current b ∷ [])
  refused :
      {r : Round} {b : String} {rs : List Round} {ws : List Write}
      → HasFirst b r
      → r.taken ≡ false
      → IsBootstrap rs ws
      → IsBootstrap (r ∷ rs) (set_current b ∷ ws)

pause-IsBootstrap :
    (deadline : ℤ) (r : Round) (rs : List Round) (next : Trace)
    → IsBootstrap rs next.1
    → IsBootstrap rs (pause deadline r next).1
unfolding pause
pause-IsBootstrap deadline r rs next h = elim (Bool-cases (ltb_ℤ deadline r.now)) [
  | inl e ↦ simp (e) (IsBootstrap.silent rs)
  | inr e ↦ simp (e) (elim (Bool-cases r.cancelled) [
    | inl f ↦ simp (f) (IsBootstrap.silent rs)
    | inr f ↦ simp (f) (h)
  ])
]

promote-IsBootstrap :
    (r : Round) (rs : List Round) (o : Option String) (next : Trace)
    → ((b : String) → o ≡ some b → HasFirst b r)
    → IsBootstrap rs next.1
    → IsBootstrap (r ∷ rs) (promote r o next).1
unfolding promote
promote-IsBootstrap r rs none next f h = IsBootstrap.passes r h
promote-IsBootstrap r rs (some b) next f h = elim (Bool-cases r.taken) [
  | inl e ↦ simp (e) (IsBootstrap.taken rs (f b refl) e)
  | inr e ↦ simp (e) (IsBootstrap.refused (f b refl) e h)
]

round-IsBootstrap :
    (deadline : ℤ) (r : Round) (rs : List Round) (d : Option Deployment) (next : Trace)
    → r.described ≡ d
    → IsBootstrap rs next.1
    → IsBootstrap (r ∷ rs) (round deadline r d next).1
unfolding round
round-IsBootstrap deadline r rs none next q h =
    IsBootstrap.passes r (pause-IsBootstrap deadline r rs next h)
round-IsBootstrap deadline r rs (some d) next q h =
    elim (Bool-cases (str_eq d.routing.current_build_id "")) [
      | inl e ↦ simp (e) (
          promote-IsBootstrap r rs (find_label v1 d.versions) (pause deadline r next)
            (λ b f. (d, (q, ((eq_iff _ "").0 e, f)))) (pause-IsBootstrap deadline r rs next h))
      | inr e ↦ simp (e) (IsBootstrap.silent (r ∷ rs))
    ]

rounds-IsBootstrap : (deadline : ℤ) (rs : List Round) → IsBootstrap rs (rounds deadline rs).1
unfolding rounds
rounds-IsBootstrap deadline [] = IsBootstrap.silent []
rounds-IsBootstrap deadline (r ∷ rs) =
    round-IsBootstrap deadline r rs r.described (rounds deadline rs) refl
      (rounds-IsBootstrap deadline rs)

-- A round of the bootstrap makes at most one write, and in the order of the rounds: the write makes
-- Current the first version labelled v1 that this round itself found registered while nothing was
-- current. So no round moves a deployment that it found with a current version, or writes without
-- having looked, no other version is promoted, and nothing follows a write that the server took.
pub ensure_current_version-IsBootstrap :
    (start : ℤ) (rs : List Round) → IsBootstrap rs (ensure_current_version start rs).1
unfolding ensure_current_version
ensure_current_version-IsBootstrap start rs = rounds-IsBootstrap (start +ℤ bootstrap_timeout) rs
