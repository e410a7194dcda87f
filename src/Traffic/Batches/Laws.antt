-- ===== src/Traffic/Batches/Laws.antt =====
-- Batches lose no order and double none.
use temporal_serverless_rain.Base.{
  ◌≡◌, refl, sym, subst, true, false, ℕ, zero, suc, ◌+◌, ◌-◌, ◌/◌, ◌≤◌, ltb, min, List, [], ◌∷◌,
  ◌++◌, length, All, inl, inr, Bool-cases, arith, none,
}
use temporal_serverless_rain.Traffic.Types.{StartOrdersRequest}
use temporal_serverless_rain.Traffic.Batches.{orders_per_activity, cut, batches, start_orders}

-- The batches number the orders from `seq` up to `end` without a gap and without overlap, and each
-- has between 1 and 500.
abbrev pub Covers : ℕ → ℕ → List StartOrdersRequest → Type 0
Covers seq end [] = seq ≡ end
Covers seq end (r ∷ rs) =
    (r.first_seq ≡ seq)
    × (1 ≤ r.count)
    × (r.count ≤ orders_per_activity)
    × Covers (seq + r.count) end rs

-- A request has the number and the first order that it was made for.
abbrev pub IsMaker : (ℕ → ℕ → StartOrdersRequest) → Type 0
IsMaker make =
    (seq chunk : ℕ) → ((make seq chunk).first_seq ≡ seq) × ((make seq chunk).count ≡ chunk)

Covers-cons :
    (seq end chunk : ℕ) (r : StartOrdersRequest) (rs : List StartOrdersRequest)
    → r.first_seq ≡ seq
    → r.count ≡ chunk
    → 1 ≤ chunk
    → chunk ≤ orders_per_activity
    → Covers (seq + chunk) end rs
    → Covers seq end (r ∷ rs)
Covers-cons seq end chunk r rs f c lo hi h =
    (f, omega arith, omega arith, subst (λ n. Covers (seq + n) end rs) (sym c) h)

chunk_bounds :
    (n : ℕ)
    → ltb 0 n ≡ true
    → (1 ≤ min n orders_per_activity)
      × (min n orders_per_activity ≤ orders_per_activity)
      × (min n orders_per_activity ≤ n)
chunk_bounds n e = ground arith

none_left : (n : ℕ) → ltb 0 n ≡ false → n ≡ 0
none_left n e = ground arith

cut-Covers :
    (make : ℕ → ℕ → StartOrdersRequest)
    → IsMaker make
    → (fuel seq remaining : ℕ) → remaining ≤ fuel
    → Covers seq (seq + remaining) (cut make fuel seq remaining)
unfolding cut
cut-Covers make lawful zero seq remaining h = omega arith
cut-Covers make lawful (suc fuel) seq remaining h = elim (Bool-cases (ltb 0 remaining)) [
  | inl e ↦
      let chunk = min remaining orders_per_activity in
      let rest = cut-Covers make lawful fuel (seq + chunk) (remaining - chunk) (omega arith) in
      let b = chunk_bounds remaining e in
      rw (e, cut)
        (Covers-cons seq (seq + remaining) chunk (make seq chunk) _ (lawful seq chunk).0
          (lawful seq chunk).1 b.0 b.1
          (subst (λ end. Covers (seq + chunk) end (cut make fuel (seq + chunk) (remaining - chunk)))
            (omega (arith, b.2)) rest))
  | inr e ↦ rw (e, cut) (omega (arith, none_left remaining e))
]

pub batches-Covers :
    (make : ℕ → ℕ → StartOrdersRequest)
    → IsMaker make
    → (seq count : ℕ) → Covers seq (seq + count) (batches make seq count)
unfolding batches
batches-Covers make lawful seq count = cut-Covers make lawful count seq count (omega arith)

-- How many batches there are: as many as hold 500 each, with what is left over in one more.
cut-length :
    (make : ℕ → ℕ → StartOrdersRequest)
    → (fuel seq remaining : ℕ) → remaining ≤ fuel
    → length (cut make fuel seq remaining) ≡ (remaining + 499) / 500
unfolding cut
cut-length make zero seq remaining h = omega arith
cut-length make (suc fuel) seq remaining h = elim (Bool-cases (ltb 0 remaining)) [
  | inl e ↦
      let chunk = min remaining orders_per_activity in
      rw (e, cut)
        (omega (
          arith,
          cut-length make fuel (seq + chunk) (remaining - chunk)
              (omega (arith, chunk_bounds remaining e)),
          chunk_bounds remaining e,
        ))
  | inr e ↦ rw (e, cut) (omega (arith, none_left remaining e))
]

-- What `make` writes into every request, every batch has.
cut-All :
    (P : StartOrdersRequest → Type 0) (make : ℕ → ℕ → StartOrdersRequest)
    → ((seq chunk : ℕ) → P (make seq chunk))
    → (fuel seq remaining : ℕ) → All P (cut make fuel seq remaining)
unfolding cut
cut-All P make h zero seq remaining = tt
cut-All P make h (suc fuel) seq remaining =
    let chunk = min remaining orders_per_activity in
    let rest = cut-All P make h fuel (seq + chunk) (remaining - chunk) in
    elim (Bool-cases (ltb 0 remaining)) [
      | inl e ↦ rw (e, cut) (h seq chunk, rest)
      | inr e ↦ rw (e, cut) tt
    ]

pub length-batches :
    (make : ℕ → ℕ → StartOrdersRequest) (seq count : ℕ)
    → length (batches make seq count) ≡ (count + 499) / 500
unfolding batches
length-batches make seq count = cut-length make count seq count (omega arith)

pub batches-All :
    (P : StartOrdersRequest → Type 0) (make : ℕ → ℕ → StartOrdersRequest)
    → ((seq chunk : ℕ) → P (make seq chunk))
    → (seq count : ℕ) → All P (batches make seq count)
unfolding batches
batches-All P make h seq count = cut-All P make h count seq count

-- A batch of the steady stream: the settings of the request, and no prefix of its own.
abbrev pub Follows : StartOrdersRequest → StartOrdersRequest → Type 0
Follows req r =
    (r.chaos ≡ req.chaos)
    × (r.split ≡ req.split)
    × (r.spread_over ≡ req.spread_over)
    × (r.id_prefix ≡ none)

-- startOrders cuts a request into batches that number its orders from its first one without a gap
-- or an overlap, with between 1 and 500 orders each and no more batches than are needed; every
-- batch has the faults, the split and the spread of the request.
pub start_orders-Covers :
    (req : StartOrdersRequest)
    → Covers req.first_seq (req.first_seq + req.count) (start_orders req)
      × (length (start_orders req) ≡ (req.count + 499) / 500)
      × All (Follows req) (start_orders req)
unfolding start_orders
start_orders-Covers req = (
  batches-Covers _ (λ seq chunk. (refl, refl)) req.first_seq req.count,
  length-batches _ req.first_seq req.count,
  batches-All (Follows req) _ (λ seq chunk. (refl, refl, refl, refl)) req.first_seq req.count,
)

pub Covers-append :
    (a b c : ℕ) (xs ys : List StartOrdersRequest)
    → Covers a b xs
    → Covers b c ys
    → Covers a c (xs ++ ys)
Covers-append a b c [] ys hx hy = subst (λ n. Covers n c ys) (sym hx) hy
Covers-append a b c (x ∷ xs) ys hx hy =
    (hx.0, hx.1, hx.2, Covers-append (a + x.count) b c xs ys hx.3 hy)
