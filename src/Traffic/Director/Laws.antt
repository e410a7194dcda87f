-- ===== src/Traffic/Director/Laws.antt =====
-- What the generator keeps, whatever happens to it.
use temporal_serverless_rain.Base.{
  ◌≡◌, refl, sym, inl, inr, Bool-cases, ℕ, suc, ◌+◌, ◌*◌, ◌/◌, ◌%◌, subst, ◌==◌, ◌≤◌, ◌<◌, ltb,
  leb_ℤ, ◌&&◌, ℤ, Bool, arith, Option, none, some,
}
use temporal_serverless_rain.Traffic.Types.{StartOrdersResult, Input, State, max_rate_per_min}
use temporal_serverless_rain.Traffic.Batches.Laws.{Covers, Covers-append, start_orders-Covers}
use temporal_serverless_rain.Traffic.Control.{Control, Update, handle, apply, touched}
use temporal_serverless_rain.Traffic.Control.Laws.{IsBounded, handle-IsBounded}
use temporal_serverless_rain.Traffic.Director.{
  Loop, director, auto_stop, window_request, open_window, begin_window, orders_due, window_seconds,
  proceed, head, wake, batch_done, receive, Step, Reaches,
}

-- The orders of this run are numbered from the input's number on, to the next one, without a gap or
-- an overlap; the settings are in their bounds; and less than an order is carried.
pub record IsSound (in' : Input) (l : Loop) : Type 0 where
  pub numbers : Covers in'.next_seq l.state.next_seq l.issued
  pub bounds : IsBounded l.state l.ctrl
  pub remainder : l.carry < 60

-- An Update does not touch the numbers.
handle_next_seq :
    (now : ℤ) (u : Update) (s : State) (c : Control) → (handle now u (s, c)).0.next_seq ≡ s.next_seq
unfolding handle apply touched
handle_next_seq now u s c = ground arith

module _ (in' : Input) where
  auto_stop-IsSound : (l : Loop) → IsSound in' l → IsSound in' (auto_stop l)
  unfolding auto_stop
  auto_stop-IsSound l h =
      elim (Bool-cases (ltb 0 l.state.rate_per_min && leb_ℤ l.state.stop_at l.now)) [
        | inl e ↦
            simp (e, auto_stop)
              (record {
                numbers = h.numbers;
                bounds = record { rate = omega arith; messages = h.bounds.messages };
                remainder = h.remainder;
              })
        | inr e ↦ simp (e, auto_stop) h
      ]

  open_window-IsSound : (due : ℕ) (l : Loop) → IsSound in' l → IsSound in' (open_window due l)
  unfolding open_window window_request
  open_window-IsSound due l h = record {
    numbers =
        Covers-append _ l.state.next_seq _ l.issued _ h.numbers
          (start_orders-Covers (window_request due l)).0;
    bounds = record { rate = h.bounds.rate; messages = h.bounds.messages };
    remainder = h.remainder;
  }

  begin_window-IsSound : (l : Loop) → IsSound in' l → IsSound in' (begin_window l)
  unfolding begin_window orders_due
  begin_window-IsSound l h =
      let owed = l.carry + l.state.rate_per_min * window_seconds in
      open_window-IsSound (owed / 60) (record l { carry = owed % 60 })
        (record { numbers = h.numbers; bounds = h.bounds; remainder = omega arith })

  proceed-IsSound : (long : Bool) (l : Loop) → IsSound in' l → IsSound in' (proceed long l)
  unfolding proceed
  proceed-IsSound long l h = elim (Bool-cases (l.state.rate_per_min == 0)) [
    | inl e ↦ simp (e, proceed) (assumption h)
    | inr e ↦ elim (Bool-cases long) [
      | inl f ↦ simp (e, f, proceed) (assumption h)
      | inr f ↦ simp (e, f, proceed) (begin_window-IsSound l h)
    ]
  ]

  head-IsSound : (long : Bool) (l : Loop) → IsSound in' l → IsSound in' (head long l)
  unfolding head
  head-IsSound long l h = elim (Bool-cases l.ctrl.stop) [
    | inl e ↦ simp (e, head) (assumption h)
    | inr e ↦ simp (e, head) (proceed-IsSound long (auto_stop l) (auto_stop-IsSound l h))
  ]

  wake-IsSound :
      (n : ℕ) (l : Loop) → l.ctrl.changes ≡ suc n → IsSound in' l → IsSound in' (wake n l)
  unfolding wake
  wake-IsSound n l e h = record {
    numbers = h.numbers;
    bounds = record { rate = h.bounds.rate; messages = omega (arith, h.bounds.messages) };
    remainder = h.remainder;
  }

  batch_done-IsSound :
      (r : Option StartOrdersResult) (l : Loop) → IsSound in' l → IsSound in' (batch_done r l)
  unfolding batch_done
  batch_done-IsSound none l h = assumption h
  batch_done-IsSound (some r) l h = assumption h

  receive-IsSound : (u : Update) (l : Loop) → IsSound in' l → IsSound in' (receive u l)
  unfolding receive
  receive-IsSound u l h = record {
    numbers =
        subst (λ n. Covers in'.next_seq n l.issued) (sym (handle_next_seq l.now u l.state l.ctrl))
          h.numbers;
    bounds = handle-IsBounded l.now u l.state l.ctrl h.bounds;
    remainder = h.remainder;
  }

  step-IsSound : (l l' : Loop) → Step l l' → IsSound in' l → IsSound in' l'
  step-IsSound _ _ (Step.looks long l m) h = head-IsSound long l h
  step-IsSound _ _ (Step.passes t l le) h = assumption h
  step-IsSound _ _ (Step.updates u l o) h = receive-IsSound u l h
  step-IsSound _ _ (Step.wakes n l m e) h = wake-IsSound n l e h
  step-IsSound _ _ (Step.interrupts n m l i e) h = wake-IsSound n l e h
  step-IsSound _ _ (Step.finishes r m l i) h = batch_done-IsSound r l h

-- Whatever happens to a generator whose input has a rate from 0 to 20000: its batches number the
-- orders from the input's number on, to the next number, without a gap or an overlap and with
-- between 1 and 500 in each; its rate stays from 0 to 20000; no more than 16 messages wait; and
-- less than an order is carried from one window to the next.
pub Reaches-IsSound :
    (in' : Input) (now : ℤ) (l : Loop)
    → in'.rate_per_min ≤ max_rate_per_min
    → Reaches in' now l
    → IsSound in' l
unfolding director
Reaches-IsSound in' now _ r Reaches.begins = record {
  numbers = refl;
  bounds = record { rate = r; messages = omega arith };
  remainder = omega arith;
}
Reaches-IsSound in' now _ r (Reaches.steps k l h s) =
    step-IsSound in' k l s (Reaches-IsSound in' now k r h)
