-- ===== src/Traffic/Activities/Start/Ends.antt =====
-- internal/traffic/activities.go: from wherever a batch has come to, it can end, and its result.
use temporal_serverless_rain.Base.{
  String, ℕ, ◌+◌, ◌-◌, ◌*◌, ◌≤◌, ◌<◌, suc, zero, pos, ◌<ℤ◌, true, Bool-cases, inl, inr, ◌⊎◌, ltb,
  List, [], ◌∷◌, Option, none, is_some, length, ◌≡◌, refl, ap, ◌∙◌, arith, ◌++◌,
}
use temporal_serverless_rain.Base.Float.{Float}
use temporal_serverless_rain.Traffic.Types.{StartOrdersRequest, StartOrdersResult}
use temporal_serverless_rain.Traffic.Activities.{WeightedBuild, resolved, resolve_split}
use temporal_serverless_rain.Traffic.Activities.Start.{
  gap, Batch, Event, spawn, acquire, answer, new_batch, take_out, tally, is_looping, happen,
  happen_all, is_over, start_orders, returned,
}
use temporal_serverless_rain.Traffic.Activities.Start.Laws.{
  IsTallied, happen_all-new_batch-IsTallied,
}

-- What a batch still has to do.
work : StartOrdersRequest → Batch → ℕ
work req b = 3 * (req.count - b.spawned) + 2 * length b.waiting + length b.flying

empty_or_not : (xs : List ℕ) → (xs ≡ []) ⊎ ((x : ℕ) × ((ys : List ℕ) × (xs ≡ x ∷ ys)))
empty_or_not [] = inl refl
empty_or_not (x ∷ xs) = inr (x, (xs, refl))

next-work :
    (req : StartOrdersRequest) (builds : List WeightedBuild) (slots : ℕ) (b : Batch)
    → 1 ≤ slots
    → (is_over req b ≡ true) ⊎ ((e : Event) × (work req (happen req builds slots e b) < work req b))
unfolding happen work is_over take_out tally
next-work req builds slots b h = elim (Bool-cases (is_looping req b)) [
  | inl e ↦ inr (spawn, rw e (ground (arith, e)))
  | inr e ↦ elim (empty_or_not b.flying) [
    | inr (x, (ys, f)) ↦ inr (answer 0 none, rw f (omega arith))
    | inl f ↦ elim (empty_or_not b.waiting) [
      | inr (x, (ys, w)) ↦
          let s : ltb 0 slots ≡ true = ground (arith, h) in
          inr (acquire 0 (pos 0) (pos 0), rw (f, w, s) (omega arith))
      | inl w ↦ inl (rw (e, f, w) refl)
    ]
  ]
]

happen_all-append :
    (req : StartOrdersRequest) (builds : List WeightedBuild) (slots : ℕ) (es fs : List Event)
    (b : Batch)
    → happen_all req builds slots (es ++ fs) b
      ≡ happen_all req builds slots fs (happen_all req builds slots es b)
unfolding happen_all
happen_all-append req builds slots [] fs b = refl
happen_all-append req builds slots (e ∷ es) fs b = happen_all-append req builds slots es fs _

happen_all-Ends :
    (req : StartOrdersRequest) (builds : List WeightedBuild) (slots : ℕ)
    → 1 ≤ slots
    → (m : ℕ) (b : Batch) → work req b ≤ m
    → (es : List Event) × (is_over req (happen_all req builds slots es b) ≡ true)
unfolding happen_all
happen_all-Ends req builds slots h zero b l = elim (next-work req builds slots b h) [
  | inl o ↦ ([], o)
  | inr (e, n) ↦ absurd (omega (arith, n, l))
]
happen_all-Ends req builds slots h (suc m) b l = elim (next-work req builds slots b h) [
  | inl o ↦ ([], o)
  | inr (e, n) ↦
      let rest = happen_all-Ends req builds slots h m _ (omega (arith, n, l)) in
      (e ∷ rest.0, rest.1)
]

-- What a batch that is over has come to.
abbrev pub IsResult : StartOrdersRequest → StartOrdersResult → Type 0
IsResult req r =
    ((r.started + r.failed ≤ req.count) × (is_some r.detail ≡ ltb 0 r.failed))
    × ((r.started + r.failed ≡ req.count) ⊎ (pos 0 <ℤ gap req))

is_over-IsResult :
    (req : StartOrdersRequest) (slots : ℕ) (b : Batch)
    → IsTallied req slots b
    → is_over req b ≡ true
    → IsResult req b.result
unfolding is_over
is_over-IsResult req slots b h o = (
  (omega (arith, h.counted, h.within), h.told),
  elim (Bool-cases b.leaving) [
    | inl e ↦ inr (h.stopped e)
    | inr e ↦ inl (ground (arith, e, o, h.counted, h.within))
  ],
)

-- From wherever a batch has come to, after any events, with its split resolved and a slot or more,
-- the orders that are left can be started and answered, and then the batch returns. It has counted
-- no more orders than it was asked for, and tells of an error exactly when one failed; and it has
-- counted all of them, unless orders are paced.
pub start_orders-Ends :
    (resolve : String → Option String) (slots : ℕ) (req : StartOrdersRequest) (events : List Event)
    (builds : List WeightedBuild) (total : Float)
    → resolve_split resolve req.split ≡ resolved builds total
    → 1 ≤ slots
    → (more : List Event) × ((r : StartOrdersResult) × ((start_orders resolve slots req
              (events ++ more)
            ≡ returned r)
          × IsResult req r))
unfolding start_orders
start_orders-Ends resolve slots req events builds total e h =
    let b = happen_all req builds slots events new_batch in
    let f = happen_all-Ends req builds slots h (work req b) b (omega arith) in
    let c = happen_all req builds slots (events ++ f.0) new_batch in
    let s : is_over req c ≡ true =
      ap (is_over req) (happen_all-append req builds slots events f.0 new_batch) ∙ f.1 in
    (
      f.0,
      (
        c.result,
        (
          rw e (rw s refl),
          is_over-IsResult req slots c
              (happen_all-new_batch-IsTallied req builds slots (events ++ f.0)) s,
        ),
      ),
    )
