-- ===== src/Traffic/Activities/Start/Laws.antt =====
-- internal/traffic/activities.go: a batch asks for each of its orders once, however its goroutines
-- are scheduled.
use temporal_serverless_rain.Base.{
  String, ℕ, ◌+◌, ◌≤◌, ◌<◌, suc, zero, pos, ◌<ℤ◌, ltb_ℤ, true, Bool-cases, inl, inr, ◌&&◌, ltb, leb,
  ◌==◌, List, [], ◌∷◌, Option, none, some, is_some, if◌then◌else◌, length, ◌≡◌, refl, ◌∙◌, arith,
}
use temporal_serverless_rain.Base.Float.{Float}
use temporal_serverless_rain.Traffic.Types.{StartOrdersRequest}
use temporal_serverless_rain.Traffic.Activities.{WeightedBuild}
use temporal_serverless_rain.Traffic.Activities.Start.{
  gap, Ask, Batch, Event, spawn, stop, acquire, answer, new_batch, put_back, take_out, tally,
  is_looping, ask, settle, happen, happen_all,
}

-- How often a number is in a list, and how often an order is asked for.
pub occurs : ℕ → List ℕ → ℕ
occurs n [] = 0
occurs n (x ∷ xs) = (if n == x then 1 else 0) + occurs n xs

pub asked_for : ℕ → List Ask → ℕ
asked_for n [] = 0
asked_for n (a ∷ as') = (if n == a.seq then 1 else 0) + asked_for n as'

-- What a taken number and the rest make up.
abbrev IsTaken : List ℕ → Option (ℕ × List ℕ) → Type 0
IsTaken xs none = Unit
IsTaken xs (some p) =
    (suc (length p.1) ≡ length xs)
    × ((n : ℕ) → (if n == p.0 then 1 else 0) + occurs n p.1 ≡ occurs n xs)

put_back-IsTaken :
    (x : ℕ) (xs : List ℕ) (o : Option (ℕ × List ℕ)) → IsTaken xs o → IsTaken (x ∷ xs) (put_back x o)
unfolding occurs
put_back-IsTaken x xs none h = tt
put_back-IsTaken x xs (some p) h = (omega (arith, h.0), λ n. omega (arith, h.1 n))

take_out-IsTaken : (k : ℕ) (xs : List ℕ) → IsTaken xs (take_out k xs)
unfolding take_out occurs
take_out-IsTaken k [] = tt
take_out-IsTaken zero (x ∷ xs) = (refl, λ n. refl)
take_out-IsTaken (suc k) (x ∷ xs) = put_back-IsTaken x xs (take_out k xs) (take_out-IsTaken k xs)

-- Each of the orders that the loop has come to is asked for once or waits; there are no others. No
-- more than the slots are in flight, and what is not is in the result.
pub record IsTallied (req : StartOrdersRequest) (slots : ℕ) (b : Batch) : Type 0 where
  pub within : b.spawned ≤ req.count
  pub slotted : length b.flying ≤ slots
  pub counted : b.result.started + b.result.failed + length b.waiting + length b.flying ≡ b.spawned
  pub begun : b.result.started + b.result.failed + length b.flying ≡ length b.asked
  pub once :
      (n : ℕ)
      → occurs n b.waiting + asked_for n b.asked
        ≡ (if leb req.first_seq n && ltb n (req.first_seq + b.spawned) then 1 else 0)
  pub told : is_some b.result.detail ≡ ltb 0 b.result.failed
  pub stopped : b.leaving ≡ true → pos 0 <ℤ gap req

kept_told :
    (d : Option (ℕ × String)) (x : ℕ × String) → is_some (if is_some d then d else some x) ≡ true
kept_told none x = refl
kept_told (some y) x = refl

module _ (req : StartOrdersRequest) (builds : List WeightedBuild) (slots : ℕ) where
  spawn-IsTallied :
      (b : Batch)
      → IsTallied req slots b
      → is_looping req b ≡ true
      → IsTallied req slots
          (record b { spawned = suc b.spawned; waiting = (req.first_seq + b.spawned) ∷ b.waiting })
  unfolding occurs
  spawn-IsTallied b h e = record {
    within = ground (arith, e);
    slotted = h.slotted;
    counted = omega (arith, h.counted);
    begun = h.begun;
    once = λ n. ground (arith, h.once n);
    told = h.told;
    stopped = h.stopped;
  }

  ask-IsTallied :
      (f d : Float) (o : Option (ℕ × List ℕ)) (b : Batch)
      → IsTallied req slots b
      → IsTaken b.waiting o
      → length b.flying < slots
      → IsTallied req slots (ask req builds f d o b)
  unfolding asked_for
  ask-IsTallied f d none b h t l = h
  ask-IsTallied f d (some p) b h t l = record {
    within = h.within;
    slotted = l;
    counted = omega (arith, h.counted, t.0);
    begun = omega (arith, h.begun);
    once = λ n. omega (arith, h.once n, t.1 n);
    told = h.told;
    stopped = h.stopped;
  }

  settle-IsTallied :
      (err : Option String) (o : Option (ℕ × List ℕ)) (b : Batch)
      → IsTallied req slots b
      → IsTaken b.flying o
      → IsTallied req slots (settle err o b)
  unfolding tally
  settle-IsTallied err none b h t = h
  settle-IsTallied none (some p) b h t = record {
    within = h.within;
    slotted = omega (arith, h.slotted, t.0);
    counted = omega (arith, h.counted, t.0);
    begun = omega (arith, h.begun, t.0);
    once = h.once;
    told = h.told;
    stopped = h.stopped;
  }
  settle-IsTallied (some e) (some p) b h t = record {
    within = h.within;
    slotted = omega (arith, h.slotted, t.0);
    counted = omega (arith, h.counted, t.0);
    begun = omega (arith, h.begun, t.0);
    once = h.once;
    told = kept_told b.result.detail (p.0, e) ∙ ground arith;
    stopped = h.stopped;
  }

  happen-IsTallied :
      (e : Event) (b : Batch)
      → IsTallied req slots b
      → IsTallied req slots (happen req builds slots e b)
  unfolding happen
  happen-IsTallied spawn b h = elim (Bool-cases (is_looping req b)) [
    | inl e ↦ rw e (spawn-IsTallied b h e)
    | inr e ↦ rw e h
  ]
  happen-IsTallied stop b h =
      elim (Bool-cases (is_looping req b && ltb 0 b.spawned && ltb_ℤ (pos 0) (gap req))) [
        | inl e ↦ rw e (record {
          within = h.within;
          slotted = h.slotted;
          counted = h.counted;
          begun = h.begun;
          once = h.once;
          told = h.told;
          stopped = λ _. ground (arith, e);
        })
        | inr e ↦ rw e h
      ]
  happen-IsTallied (acquire k f d) b h = elim (Bool-cases (ltb (length b.flying) slots)) [
    | inl e ↦ rw e (
        ask-IsTallied f d (take_out k b.waiting) b h (take_out-IsTaken k b.waiting)
          (ground (arith, e)))
    | inr e ↦ rw e h
  ]
  happen-IsTallied (answer k err) b h =
      settle-IsTallied err (take_out k b.flying) b h (take_out-IsTaken k b.flying)

  happen_all-IsTallied :
      (es : List Event) (b : Batch)
      → IsTallied req slots b
      → IsTallied req slots (happen_all req builds slots es b)
  unfolding happen_all
  happen_all-IsTallied [] b h = h
  happen_all-IsTallied (e ∷ es) b h = happen_all-IsTallied es _ (happen-IsTallied e b h)

new_batch-IsTallied : (req : StartOrdersRequest) (slots : ℕ) → IsTallied req slots new_batch
unfolding occurs asked_for
new_batch-IsTallied req slots = record {
  within = omega arith;
  slotted = omega arith;
  counted = refl;
  begun = refl;
  once = λ n. ground arith;
  told = refl;
  stopped = λ e. absurd (grind (arith, e));
}

-- Whatever happens in a batch of orders, in whatever order, at any number of slots: each order that
-- the loop has come to waits or has been asked for, exactly once, and no others are; no more are in
-- flight than there are slots; those that neither wait nor are in flight are in the result, as
-- started or failed, which tells of an error exactly when one failed; and the batch is cut short
-- only where orders are paced.
pub happen_all-new_batch-IsTallied :
    (req : StartOrdersRequest) (builds : List WeightedBuild) (slots : ℕ) (events : List Event)
    → IsTallied req slots (happen_all req builds slots events new_batch)
happen_all-new_batch-IsTallied req builds slots events =
    happen_all-IsTallied req builds slots events new_batch (new_batch-IsTallied req slots)
