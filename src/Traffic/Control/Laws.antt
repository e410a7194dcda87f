-- ===== src/Traffic/Control/Laws.antt =====
-- What an operator may set, and what every Update leaves in bounds.
use temporal_serverless_rain.Base.{
  ◌≡◌, ◌↔◌, Option-cases, All, ◌<ℤ◌, List, [], ◌∷◌, String, inl, inr, ◌≤◌, ℤ, pos, ◌≤ℤ◌, true,
  false, Option, none, some, is_some, arith,
}
use temporal_serverless_rain.Base.Float.{float, IsPercent}
use temporal_serverless_rain.Traffic.Types.{Split, State, max_rate_per_min}
use temporal_serverless_rain.Traffic.Control.{
  Control, has_seen, check_shares, check_total, check_split, Rejection, least_total, most_total,
  total, buffer, Update, set_rate, set_split, set_chaos, stop, send, touched, validate, apply,
  handle,
}

-- What an Update may leave behind: a rate in its bounds, and no more messages than the buffer
-- holds.
pub record IsBounded (s : State) (c : Control) : Type 0 where
  pub rate : s.rate_per_min ≤ max_rate_per_min
  pub messages : c.changes ≤ buffer

send-le : (c : Control) → c.changes ≤ buffer → (send c).changes ≤ buffer
unfolding send
send-le c h = ground arith

apply-IsBounded :
    (now : ℤ) (u : Update) (s : State) (c : Control)
    → validate u ≡ none
    → IsBounded s c
    → IsBounded (apply now u (s, c)).0 (apply now u (s, c)).1
unfolding apply validate touched
apply-IsBounded now (set_rate r) s c e h = record {
  rate = ground arith;
  messages = send-le c h.messages;
}
apply-IsBounded now (set_split split) s c e h = record {
  rate = h.rate;
  messages = send-le c h.messages;
}
apply-IsBounded now (set_chaos chaos) s c e h = record {
  rate = h.rate;
  messages = send-le c h.messages;
}
apply-IsBounded now stop s c e h = record {
  rate = omega arith;
  messages = send-le (record c { stop = true }) h.messages;
}

-- An Update, refused or handled, keeps the bounds.
pub handle-IsBounded :
    (now : ℤ) (u : Update) (s : State) (c : Control)
    → IsBounded s c
    → IsBounded (handle now u (s, c)).0 (handle now u (s, c)).1
unfolding handle
handle-IsBounded now u s c h = elim (Option-cases (validate u)) [
  | inl e ↦ rw (e, handle) (apply-IsBounded now u s c e h)
  | inr (r, e) ↦ rw (e, handle) h
]

-- No two shares are for the same label, nor for one of those before.
abbrev pub Distinct : List String → Split → Type 0
Distinct seen [] = Unit
Distinct seen (e ∷ es) = (has_seen seen e.version ≡ false) × Distinct (e.version ∷ seen) es

check_shares_lem :
    (seen : List String) (s : Split)
    → (check_shares seen s ≡ none) ↔ (All (λ e. IsPercent e.pct) s × Distinct seen s)
unfolding check_shares
check_shares_lem seen [] = ground arith
check_shares_lem seen (e ∷ es) = let rest = check_shares_lem (e.version ∷ seen) es in ground arith

-- What an Update needs.
abbrev pub Fits : Update → Type 0
Fits (set_rate r) = (pos 0 ≤ℤ r) × (r ≤ℤ pos max_rate_per_min)
Fits (set_split []) = Unit
Fits (set_split (e ∷ es)) =
    All (λ x. IsPercent x.pct) (e ∷ es)
    × Distinct [] (e ∷ es)
    × (least_total ≤ℤ total (e ∷ es))
    × (total (e ∷ es) ≤ℤ most_total)
Fits (set_chaos c) = IsPercent c.pct × ((float 0 <ℤ c.pct) → is_some c.spec ≡ true)
Fits stop = Unit

check_total_lem :
    (s : Split) (r : Option Rejection)
    → (check_total s r ≡ none) ↔ ((r ≡ none) × (least_total ≤ℤ total s) × (total s ≤ℤ most_total))
unfolding check_total
check_total_lem s (some r) = ground arith
check_total_lem s none = ground arith

-- The generator accepts exactly the Updates that fit: a rate from 0 to 20000; a split that is
-- empty, or has percentages for distinct labels whose sum in float64 is between 99.5 and 100.5; a
-- fault at a percentage, with a target unless that is 0; and a stop.
pub validate_accepts : (u : Update) → (validate u ≡ none) ↔ Fits u
unfolding validate check_split
validate_accepts (set_rate r) = ground arith
validate_accepts (set_split []) = ground arith
validate_accepts (set_split (e ∷ es)) =
    let shares = check_shares_lem [] (e ∷ es) in
    let sum = check_total_lem (e ∷ es) (check_shares [] (e ∷ es)) in
    (
      λ e. let a = sum.0 e in let b = shares.0 a.0 in (b.0, b.1, a.1, a.2),
      λ f. sum.1 (shares.1 (f.0, f.1), f.2, f.3),
    )
validate_accepts (set_chaos c) = ground arith
validate_accepts stop = ground arith
