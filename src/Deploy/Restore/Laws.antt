-- ===== src/Deploy/Restore/Laws.antt =====
-- What a rollback asks of the deployment.
use temporal_serverless_rain.Base.{
  ◌≡◌, refl, Bool-cases, Option-cases, inl, inr, String, str_eq, ℕ, Bool, List, [], ◌∷◌, ◌++◌,
  Option, some, ◌||◌, eqb_ℤ, if◌then◌else◌, length, All,
}
use temporal_serverless_rain.Base.Float.{float}
use temporal_serverless_rain.Deploy.Types.{Routing}
use temporal_serverless_rain.Deploy.Restore.{
  Write, set_current, set_ramp, Restored, done, stopped, perform_all, last_write, restore_writes,
  restore_routing,
}

abbrev pub had_no_ramp : Routing → Bool
had_no_ramp p = str_eq p.ramping_build_id "" || eqb_ℤ p.ramping_pct (float 0)

abbrev pub current_of : Routing → List Write
current_of p = if str_eq p.current_build_id "" then [] else set_current p.current_build_id ∷ []

abbrev pub ramp_of : Routing → Write
ramp_of p =
    if had_no_ramp p then set_ramp "" (float 0) else set_ramp p.ramping_build_id p.ramping_pct

abbrev pub KeepsRamp : Write → Type 0
KeepsRamp (set_current b) = Unit
KeepsRamp (set_ramp b p) = ⊥

-- All was written, Current first; or the server refused a write, and the ramp has not been written.
abbrev pub Outcomes : (ℕ → Option String) → Routing → Restored × List Write → Type 0
Outcomes server p (done, taken) = taken ≡ current_of p ++ (ramp_of p ∷ [])
Outcomes server p (stopped e, taken) = (server (length taken) ≡ some e) × All KeepsRamp taken

-- A rollback that succeeds has made the version Current that was found so, if there was one, and
-- then put back the ramp that was found, or cleared it if there was none. One that fails does so
-- with the error of the first write that the server refused, and it has not touched the ramp: the
-- ramp is never written before Current is back.
pub restore_routing-Outcomes :
    (server : ℕ → Option String) (p : Routing) → Outcomes server p (restore_routing server p)
unfolding restore_routing restore_writes perform_all last_write
restore_routing-Outcomes server p = elim (Bool-cases (str_eq p.current_build_id "")) [
  | inl e ↦ elim (Option-cases (server 0)) [
    | inl a ↦ simp (e, a, restore_routing) refl
    | inr (x, a) ↦ simp (e, a, restore_routing) (refl, tt)
  ]
  | inr e ↦ elim (Option-cases (server 0)) [
    | inl a ↦ elim (Option-cases (server 1)) [
      | inl b ↦ simp (e, a, b, restore_routing) refl
      | inr (x, b) ↦ simp (e, a, b, restore_routing) (refl, (tt, tt))
    ]
    | inr (x, a) ↦ simp (e, a, restore_routing) (refl, tt)
  ]
]
