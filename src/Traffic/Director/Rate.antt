-- ===== src/Traffic/Director/Rate.antt =====
-- When the generator starts orders, how many, and when it does not.
use temporal_serverless_rain.Base.{
  ◌≡◌, refl, sym, ◌∙◌, ◌⊎◌, inl, inr, Bool-cases, ℕ, zero, suc, ◌+◌, ◌*◌, ◌/◌, ◌%◌, ◌==◌, ◌<◌, ltb,
  leb_ℤ, ◌&&◌, ℤ, ◌<ℤ◌, ◌≤ℤ◌, subst, Bool, true, false, ◌++◌, arith, Option, none, some,
}
use temporal_serverless_rain.Traffic.Types.{StartOrdersResult, State}
use temporal_serverless_rain.Traffic.Batches.{start_orders, batches, cut}
use temporal_serverless_rain.Traffic.Control.{Control, Update, handle, apply, touched, send}
use temporal_serverless_rain.Traffic.Director.{
  at_head, idle, in_window, Loop, auto_stop, window_request, open_window, begin_window, orders_due,
  window_seconds, proceed, head, wake, batch_done, receive, Step,
}

-- What a number of windows at one rate owes in all, and what is left over.
pub owed_over : ℕ → ℕ → ℕ → ℕ × ℕ
owed_over zero rate carry = (0, carry)
owed_over (suc n) rate carry =
    let (due, left) = orders_due rate window_seconds carry in
    let (more, last) = owed_over n rate left in (due + more, last)

-- From a remainder below one order: however many windows there are at a rate, what they owe in all
-- and the remainder make up exactly what the rate comes to in that time, and the remainder stays
-- below one order.
pub owed_over_lem :
    (n rate carry : ℕ)
    → carry < 60
    → ((owed_over n rate carry).0 * 60 + (owed_over n rate carry).1
        ≡ carry + n * (rate * window_seconds))
      × ((owed_over n rate carry).1 < 60)
unfolding owed_over orders_due
owed_over_lem zero rate carry h = (omega arith, h)
owed_over_lem (suc n) rate carry h =
    let rest = owed_over_lem n rate ((carry + rate * window_seconds) % 60) (omega arith) in
    (omega (arith, rest.0), rest.1)

handle_stop :
    (now : ℤ) (u : Update) (s : State) (c : Control)
    → c.stop ≡ true
    → (handle now u (s, c)).1.stop ≡ true
unfolding handle apply touched send
handle_stop now u s c h = ground arith

-- Once an operator's stop has been accepted, it stays, and no step starts orders.
pub stop_lem :
    (l l' : Loop) → Step l l' → l.ctrl.stop ≡ true → (l'.ctrl.stop ≡ true) × (l'.issued ≡ l.issued)
unfolding head wake batch_done receive
stop_lem _ _ (Step.looks long l m) h = simp (h, head) (refl, refl)
stop_lem _ _ (Step.passes t l le) h = (h, refl)
stop_lem _ _ (Step.updates u l o) h = (handle_stop l.now u l.state l.ctrl h, refl)
stop_lem _ _ (Step.wakes n l m e) h = (h, refl)
stop_lem _ _ (Step.interrupts n m l i e) h = (h, refl)
stop_lem _ _ (Step.finishes none m l i) h = (h, refl)
stop_lem _ _ (Step.finishes (some r) m l i) h = (h, refl)

-- What a step starts: nothing, or the window that is due, if there is no stop, the rate is not zero
-- and the deadline has not been reached.
pub Starts : Loop → Loop → Type 0
Starts l l' =
    (l'.issued ≡ l.issued)
    ⊎ ((l.ctrl.stop ≡ false)
        × (0 < l.state.rate_per_min)
        × (l.now <ℤ l.state.stop_at)
        × (l'.issued
            ≡ l.issued
              ++ start_orders
                  (window_request (orders_due l.state.rate_per_min window_seconds l.carry).0 l)))

in_time :
    (rate : ℕ) (stop_at now : ℤ)
    → ltb 0 rate && leb_ℤ stop_at now ≡ false
    → rate == 0 ≡ false
    → (0 < rate) × (now <ℤ stop_at)
in_time rate stop_at now live z = ground arith

head-Starts : (long : Bool) (l : Loop) → Starts l (head long l)
unfolding head Starts auto_stop proceed begin_window open_window window_request
head-Starts long l = elim (Bool-cases l.ctrl.stop) [
  | inl e ↦ simp (e, head) (inl refl)
  | inr e ↦ elim (Bool-cases (ltb 0 l.state.rate_per_min && leb_ℤ l.state.stop_at l.now)) [
    | inl late ↦ simp (e, late, head) (inl refl)
    | inr live ↦ elim (Bool-cases (l.state.rate_per_min == 0)) [
      | inl z ↦ simp (e, live, z, head) (inl refl)
      | inr z ↦ elim (Bool-cases long) [
        | inl f ↦ simp (e, live, z, f, head) (inl refl)
        | inr f ↦
            simp (e, live, z, f, head)
              (let t = in_time l.state.rate_per_min l.state.stop_at l.now live z in
                inr (refl, t.0, t.1, refl))
      ]
    ]
  ]
]

-- A step of the generator starts no orders, or it opens a window: then no stop has been accepted,
-- the rate is not zero, the deadline has not been reached, and what it starts are the batches of
-- exactly the orders that are due, numbered from the next number on.
pub step-Starts : (l l' : Loop) → Step l l' → Starts l l'
unfolding Starts wake batch_done receive
step-Starts _ _ (Step.looks long l m) = head-Starts long l
step-Starts _ _ (Step.passes t l le) = inl refl
step-Starts _ _ (Step.updates u l o) = inl refl
step-Starts _ _ (Step.wakes n l m e) = inl refl
step-Starts _ _ (Step.interrupts n m l i e) = inl refl
step-Starts _ _ (Step.finishes none m l i) = inl refl
step-Starts _ _ (Step.finishes (some r) m l i) = inl refl

-- What may happen while no operator sends an Update.
pub data Untouched (l : Loop) : Loop → Type 0 where
  same : Untouched l l
  looks : (long : Bool) (k : Loop) → Untouched l k → k.mode ≡ at_head → Untouched l (head long k)
  passes :
      (now : ℤ) (k : Loop) → Untouched l k → k.now ≤ℤ now → Untouched l (record k { now = now })
  wakes :
      (n : ℕ) (k : Loop)
      → Untouched l k
      → k.mode ≡ idle
      → k.ctrl.changes ≡ suc n
      → Untouched l (wake n k)
  interrupts :
      (n m : ℕ) (k : Loop)
      → Untouched l k
      → k.mode ≡ in_window m
      → k.ctrl.changes ≡ suc n
      → Untouched l (wake n k)
  finishes :
      (r : Option StartOrdersResult) (m : ℕ) (k : Loop)
      → Untouched l k
      → k.mode ≡ in_window (suc m)
      → Untouched l (batch_done r k)

-- A window with nothing to wait for, and no message.
abbrev IsStalled : Loop → Type 0
IsStalled l = (l.mode ≡ in_window 0) × (l.ctrl.changes ≡ 0)

in_window-injective : (m n : ℕ) → in_window m ≡ in_window n → m ≡ n
in_window-injective m n e = cc

stays-IsStalled : (l l' : Loop) → IsStalled l → Untouched l l' → IsStalled l'
stays-IsStalled l _ h Untouched.same = h
stays-IsStalled l _ h (Untouched.looks long k u m) =
    let clash : at_head ≡ in_window 0 = sym m ∙ (stays-IsStalled l k h u).0 in cc
stays-IsStalled l _ h (Untouched.passes t k u le) = stays-IsStalled l k h u
stays-IsStalled l _ h (Untouched.wakes n k u m e) =
    let s = stays-IsStalled l k h u in absurd (omega (arith, sym e ∙ s.1))
stays-IsStalled l _ h (Untouched.interrupts n m k u i e) =
    let s = stays-IsStalled l k h u in absurd (omega (arith, sym e ∙ s.1))
stays-IsStalled l _ h (Untouched.finishes r m k u i) =
    let s = stays-IsStalled l k h u in absurd (omega (arith, in_window-injective _ _ (sym i ∙ s.0)))

small_window : (owed : ℕ) → owed < 60 → owed / 60 ≡ 0
small_window owed h = omega arith

head_live :
    (l : Loop)
    → l.ctrl.stop ≡ false
    → ltb 0 l.state.rate_per_min && leb_ℤ l.state.stop_at l.now ≡ false
    → l.state.rate_per_min == 0 ≡ false
    → head false l ≡ begin_window l
unfolding head auto_stop proceed
head_live l e live z = simp (e, live, z, head) refl

open_empty : (due : ℕ) (l : Loop) → due ≡ 0 → (open_window due l).mode ≡ in_window 0
unfolding open_window window_request start_orders batches cut
open_empty due l e = subst (λ d. (open_window d l).mode ≡ in_window 0) (sym e) refl

begin_window-IsStalled :
    (l : Loop)
    → l.carry + l.state.rate_per_min * window_seconds < 60
    → l.ctrl.changes ≡ 0
    → IsStalled (begin_window l)
unfolding begin_window orders_due open_window
begin_window-IsStalled l small q =
    let owed = l.carry + l.state.rate_per_min * window_seconds in
    (open_empty (owed / 60) (record l { carry = owed % 60 }) (small_window owed small), q)

live_test :
    (rate : ℕ) (stop_at now : ℤ)
    → 0 < rate
    → now <ℤ stop_at
    → (ltb 0 rate && leb_ℤ stop_at now ≡ false) × (rate == 0 ≡ false)
live_test rate stop_at now r t = ground arith

-- A window that owes less than one order, as at 1 order a minute from a start, is never left. The
-- generator is not stopped, has a rate, has not reached its deadline, has no message waiting and a
-- history within its budget: then, as long as no operator sends an Update, it stays in a window
-- with no batch to wait for, whatever time passes.
pub low_rate_stalls :
    (l l' : Loop)
    → l.ctrl.stop ≡ false
    → 0 < l.state.rate_per_min
    → l.now <ℤ l.state.stop_at
    → l.carry + l.state.rate_per_min * window_seconds < 60
    → l.ctrl.changes ≡ 0
    → Untouched (head false l) l'
    → l'.mode ≡ in_window 0
low_rate_stalls l l' e r t small q u =
    let live = live_test l.state.rate_per_min l.state.stop_at l.now r t in
    (stays-IsStalled (head false l) l'
      (subst IsStalled (sym (head_live l e live.0 live.1)) (begin_window-IsStalled l small q)) u).0
