-- ===== src/Rollout/Control/Laws.antt =====
-- The control Updates: who is refused, and what no sequence of them undoes.
use temporal_serverless_rain.Base.{
  ◌≡◌, refl, ◌↔◌, true, false, List, [], ◌∷◌, Option, none, some, arith,
}
use temporal_serverless_rain.Base.Float.{Float, IsPercent}
use temporal_serverless_rain.Rollout.Types.{Phase, is_terminal}
use temporal_serverless_rain.Rollout.Control.{
  Control, Update, pause, resume, advance, abort, set_ramp, handle, receive,
}

-- What an Update needs of the flags and of its argument.
abbrev pub Fits : Control → Update → Type 0
Fits c pause = c.paused ≡ false
Fits c resume = c.paused ≡ true
Fits c advance = Unit
Fits c (abort rollback) = Unit
Fits c (set_ramp pct) = IsPercent pct

-- A live rollout accepts exactly the Updates that fit: pausing when not paused, resuming when
-- paused, advancing and aborting at any time, and a ramp between 0 and 100. A finished one accepts
-- none.
pub handle_accepts :
    (p : Phase) (c : Control) (u : Update)
    → ((handle p c u).0 ≡ none) ↔ ((is_terminal p ≡ false) × Fits c u)
unfolding handle
handle_accepts p c pause = ground arith
handle_accepts p c resume = ground arith
handle_accepts p c advance = ground arith
handle_accepts p c (abort rollback) = ground arith
handle_accepts p c (set_ramp pct) = ground arith

handle_terminal :
    (p : Phase) (c : Control) (u : Update) → is_terminal p ≡ true → (handle p c u).1 ≡ c
unfolding handle
handle_terminal p c u h = ground arith

-- Once a rollout has finished, no sequence of Updates changes what an operator has asked for.
pub receive_terminal :
    (p : Phase) (us : List Update) (c : Control) → is_terminal p ≡ true → receive p us c ≡ c
unfolding receive
receive_terminal p [] c h = refl
receive_terminal p (u ∷ us) c h = rw (handle_terminal p c u h) (receive_terminal p us c h)

handle_abort :
    (p : Phase) (c : Control) (u : Update) → c.abort ≡ true → (handle p c u).1.abort ≡ true
unfolding handle
handle_abort p c u h = ground arith

-- An accepted abort cannot be taken back by later Updates.
pub receive_abort :
    (p : Phase) (us : List Update) (c : Control) → c.abort ≡ true → (receive p us c).abort ≡ true
unfolding receive
receive_abort p [] c h = h
receive_abort p (u ∷ us) c h = receive_abort p us (handle p c u).1 (handle_abort p c u h)

-- A pending jump is to a percentage.
abbrev pub IsJump : Option Float → Type 0
IsJump none = Unit
IsJump (some pct) = IsPercent pct

handle-IsJump :
    (p : Phase) (c : Control) (u : Update) → IsJump c.jump_pct → IsJump (handle p c u).1.jump_pct
unfolding handle
handle-IsJump p c u h = ground arith

-- Whatever Updates come in, a pending jump is to a percentage between 0 and 100.
pub receive-IsJump :
    (p : Phase) (us : List Update) (c : Control)
    → IsJump c.jump_pct
    → IsJump (receive p us c).jump_pct
unfolding receive
receive-IsJump p [] c h = h
receive-IsJump p (u ∷ us) c h = receive-IsJump p us (handle p c u).1 (handle-IsJump p c u h)
