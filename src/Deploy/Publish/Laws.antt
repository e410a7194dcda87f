-- ===== src/Deploy/Publish/Laws.antt =====
-- internal/deploy/deploy.go: how the publishing of a label ends.
use temporal_serverless_rain.Base.{
  ℕ, suc, zero, ◌+◌, ◌≤◌, ◌<◌, Bool, true, false, Bool-cases, inl, inr, ◌≡◌, ap, ◌∙◌, ltb, arith,
}
use temporal_serverless_rain.Deploy.Publish.{
  Publishing, published, abandoned, gave_up, publish_from, publish_label, max_attempts,
}

-- Every attempt before one was refused, and the context was not done in the wait behind it.
abbrev Refused : (ℕ → Bool) → (ℕ → Bool) → ℕ → ℕ → Type 0
Refused takes stops from n = (i : ℕ) → from ≤ i → i < n → (takes i ≡ false) × (stops i ≡ false)

-- From the first of n attempts: a label is published by the first one that the server takes, and
-- given up where the context is done in the wait behind one, or after all of them.
abbrev Ends : (ℕ → Bool) → (ℕ → Bool) → ℕ → ℕ → Publishing → Type 0
Ends takes stops from n (published k) =
    ((from ≤ k) × (k < from + n)) × ((takes k ≡ true) × Refused takes stops from k)
Ends takes stops from n (abandoned k) =
    ((from ≤ k) × (k < from + n))
    × (((takes k ≡ false) × (stops k ≡ true)) × Refused takes stops from k)
Ends takes stops from n gave_up = Refused takes stops from (from + n)

module _ (takes stops : ℕ → Bool) where
  later :
      (from n : ℕ)
      → takes from ≡ false
      → stops from ≡ false
      → Refused takes stops (from + 1) n
      → Refused takes stops from n
  later from n t s h i l u = elim (Bool-cases (ltb from i)) [
    | inl g ↦ h i (ground (arith, g)) u
    | inr g ↦ let e : i ≡ from = ground (arith, g, l) in (ap takes e ∙ t, ap stops e ∙ s)
  ]

  later-Ends :
      (from n : ℕ) (p : Publishing)
      → takes from ≡ false
      → stops from ≡ false
      → Ends takes stops (from + 1) n p
      → Ends takes stops from (suc n) p
  later-Ends from n (published k) t s h =
      ((omega (arith, h.0.0), omega (arith, h.0.1)), (h.1.0, later from k t s h.1.1))
  later-Ends from n (abandoned k) t s h =
      ((omega (arith, h.0.0), omega (arith, h.0.1)), (h.1.0, later from k t s h.1.1))
  later-Ends from n gave_up t s h =
      later from (from + suc n) t s (λ i l u. h i l (omega (arith, u)))

  publish_from-Ends : (n from : ℕ) → Ends takes stops from n (publish_from takes stops n from)
  unfolding publish_from
  publish_from-Ends zero from = λ i l u. absurd (omega (arith, l, u))
  publish_from-Ends (suc n) from = elim (Bool-cases (takes from)) [
    | inl t ↦ rw t ((omega arith, omega arith), (t, λ i l u. absurd (omega (arith, l, u))))
    | inr t ↦ elim (Bool-cases (stops from)) [
      | inl s ↦
          rw (t, s) ((omega arith, omega arith), ((t, s), λ i l u. absurd (omega (arith, l, u))))
      | inr s ↦ rw (t, s) (later-Ends from n _ t s (publish_from-Ends n (from + 1)))
    ]
  ]

-- A label is published by the first of at most twelve attempts that the server takes, or given up
-- where the context is done in the wait behind one that it refuses, or after twelve.
pub publish_label-Ends :
    (takes stops : ℕ → Bool) → Ends takes stops 1 max_attempts (publish_label takes stops)
unfolding publish_label
publish_label-Ends takes stops = publish_from-Ends takes stops max_attempts 1
