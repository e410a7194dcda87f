-- ===== src/Api/History/Laws.antt =====
-- internal/api/snapshot.go: the capped series are the last points of the series that grow forever.
use temporal_serverless_rain.Base.{
  ℕ, zero, suc, ◌+◌, ◌-◌, ◌≤◌, ltb, ltb_ℤ, ◌≤ℤ◌, Bool-cases, inl, inr, true, List, [], ◌∷◌, ◌++◌,
  map, length, length-append, append-nil, append_assoc, if◌then◌else◌, ◌≡◌, refl, sym, ap, ◌∙◌,
  arith,
}
use mathlib.Core.List.{map-append}
use temporal_serverless_rain.Base.Float.{Float, float}
use temporal_serverless_rain.Api.History.{
  History, Sample, history_length, drop, cap, append_capped, last_or, carry, at_least_zero, push,
  no_history,
}

-- The last 120 elements, or all where there are fewer.
unfoldable pub latest {ℓ} : {A : Type ℓ} → List A → List A
unfolding drop
latest xs = drop (length xs - history_length) xs

module _ {ℓ} {A : Type ℓ} where
  cap-latest : (xs : List A) → cap xs ≡ latest xs
  unfolding cap latest drop
  cap-latest xs = elim (Bool-cases (ltb history_length (length xs))) [
    | inl e ↦ rw e (refl)
    | inr e ↦ let z : length xs - history_length ≡ 0 = ground arith in rw (e, z) (refl)
  ]

  drop_nil : (n : ℕ) → drop {A = A} n [] ≡ []
  unfolding drop
  drop_nil zero = refl
  drop_nil (suc n) = refl

  drop-drop : (n k : ℕ) (xs : List A) → drop n (drop k xs) ≡ drop (k + n) xs
  unfolding drop
  drop-drop n zero xs = let e : n ≡ zero + n = omega arith in ap (λ m. drop m xs) e
  drop-drop n (suc k) [] = drop_nil n ∙ sym (drop_nil (suc k + n))
  drop-drop n (suc k) (x ∷ xs) =
      let e : suc (k + n) ≡ suc k + n = omega arith in
      drop-drop n k xs ∙ ap (λ m. drop m (x ∷ xs)) e

  drop-append : (k : ℕ) (xs ys : List A) → k ≤ length xs → drop k (xs ++ ys) ≡ drop k xs ++ ys
  unfolding drop
  drop-append zero xs ys h = refl
  drop-append (suc k) [] ys h = absurd (omega arith)
  drop-append (suc k) (x ∷ xs) ys h = drop-append k xs ys (omega arith)

  length-drop : (k : ℕ) (xs : List A) → length (drop k xs) ≡ length xs - k
  unfolding drop
  length-drop zero xs = omega arith
  length-drop (suc k) [] = omega arith
  length-drop (suc k) (x ∷ xs) = omega (arith, length-drop k xs)

  -- Appending to the last points and cutting is appending to all, and taking the last points.
  pub append_capped-latest :
      (xs : List A) (v : A) → append_capped (latest xs) v ≡ latest (xs ++ v ∷ [])
  unfolding append_capped latest
  append_capped-latest xs v =
      let k = length xs - history_length in
      let ys = drop k xs ++ v ∷ [] in
      let low : k ≤ length xs = omega arith in
      let n : length ys ≡ length xs - k + 1 =
        length-append (drop k xs) (v ∷ []) ∙ omega (arith, length-drop k xs) in
      let e : k + (length ys - history_length) ≡ length (xs ++ v ∷ []) - history_length =
        omega (arith, n, length-append xs (v ∷ [])) in
      cap-latest ys
      ∙ ap (drop (length ys - history_length)) (sym (drop-append k xs (v ∷ []) low))
      ∙ drop-drop (length ys - history_length) k (xs ++ v ∷ [])
      ∙ ap (λ m. drop m (xs ++ v ∷ [])) e

  last_or-append : (d x : A) (xs : List A) → last_or d (xs ++ x ∷ []) ≡ x
  unfolding last_or
  last_or-append d x [] = refl
  last_or-append d x (y ∷ ys) = last_or-append y x ys

  last_or-drop :
      (d : A) (k : ℕ) (xs : List A) → suc k ≤ length xs → last_or d (drop k xs) ≡ last_or d xs
  unfolding drop last_or
  last_or-drop d zero xs h = refl
  last_or-drop d (suc k) [] h = absurd (omega arith)
  last_or-drop d (suc k) (x ∷ []) h = absurd (omega arith)
  last_or-drop d (suc k) (x ∷ y ∷ ys) h = last_or-drop d k (y ∷ ys) (omega arith)

  last_or-latest : (d : A) (xs : List A) → last_or d (latest xs) ≡ last_or d xs
  unfolding latest
  last_or-latest d [] = ap (last_or d) (drop_nil (0 - history_length))
  last_or-latest d (x ∷ xs) =
      last_or-drop d (suc (length xs) - history_length) (x ∷ xs) (omega arith)

-- The points of the last sparkline, all of them: each is the rate that was read, or the last one
-- that was known, which is zero at first.
unfoldable pub fill : Float → List Float → List Float
fill p [] = []
fill p (x ∷ xs) = let y = if ltb_ℤ x (float 0) then p else x in y ∷ fill y xs

fill-append :
    (p x : Float) (xs : List Float)
    → fill p (xs ++ x ∷ [])
      ≡ fill p xs ++ (if ltb_ℤ x (float 0) then last_or p (fill p xs) else x) ∷ []
unfolding fill last_or
fill-append p x [] = refl
fill-append p x (y ∷ ys) =
    let z = if ltb_ℤ y (float 0) then p else y in ap (λ l. z ∷ l) (fill-append z x ys)

last_or-fill : (p : Float) (xs : List Float) → float 0 ≤ℤ p → float 0 ≤ℤ last_or p (fill p xs)
unfolding fill last_or
last_or-fill p [] h = h
last_or-fill p (x ∷ xs) h = last_or-fill (if ltb_ℤ x (float 0) then p else x) xs (ground arith)

last_point :
    (y : Float) (g : List Float)
    → ltb_ℤ y (float 0) ≡ true
    → float 0 ≤ℤ last_or (float 0) g
    → at_least_zero (last_or y g) ≡ last_or (float 0) g
unfolding last_or
last_point y [] e k = rw e (refl)
last_point y (z ∷ zs) e k = ground arith

-- A point that push adds, from the series that was cut.
point :
    (x : Float) (f : List Float)
    → float 0 ≤ℤ last_or (float 0) f
    → at_least_zero (carry (latest f) x) ≡ (if ltb_ℤ x (float 0) then last_or (float 0) f else x)
unfolding carry
point x f h = rw (last_or-latest x f) (elim (Bool-cases (ltb_ℤ x (float 0))) [
  | inl e ↦ rw (e) (last_point x f e h)
  | inr e ↦ rw (e, e) (refl)
])

abbrev filled : List Sample → List Float
filled ss = fill (float 0) (map (λ s. s.sync_match_pct) ss)

-- The history that never forgets, cut to its last points.
unfoldable pub view : List Sample → History
unfolding fill latest
view ss = record {
  backlog = latest (map (λ s. s.capacity.backlog_depth) ss);
  workers = latest (map (λ s. s.capacity.workers) ss);
  running = latest (map (λ s. s.totals.running) ss);
  completed_per_min = latest (map (λ s. s.completed_per_min) ss);
  oldest_wait_sec = latest (map (λ s. s.capacity.oldest_wait_sec) ss);
  sync_match_pct = latest (fill (float 0) (map (λ s. s.sync_match_pct) ss));
  workers_by_version = [];
}

module _ {ℓ} {A : Type ℓ} (f : Sample → A) (ss : List Sample) (s : Sample) where
  append_capped-map : append_capped (latest (map f ss)) (f s) ≡ latest (map f (ss ++ s ∷ []))
  append_capped-map =
      append_capped-latest (map f ss) (f s) ∙ ap latest (sym (map-append f ss (s ∷ [])))

push-filled :
    (ss : List Sample) (s : Sample)
    → append_capped
        (latest (filled ss))
        (at_least_zero (carry (latest (filled ss)) s.sync_match_pct))
      ≡ latest (filled (ss ++ s ∷ []))
push-filled ss s =
    let xs = map (λ x. x.sync_match_pct) ss in
    let e = point s.sync_match_pct (filled ss) (last_or-fill (float 0) xs (omega arith)) in
    ap (append_capped (latest (filled ss))) e
    ∙ append_capped-latest (filled ss) _
    ∙ ap latest (sym (fill-append (float 0) s.sync_match_pct xs))
    ∙ ap (λ l. latest (fill (float 0) l)) (sym (map-append (λ x. x.sync_match_pct) ss (s ∷ [])))

push-view : (ss : List Sample) (s : Sample) → push (view ss) s ≡ view (ss ++ s ∷ [])
unfolding push view
push-view ss s = λ i. record {
  backlog = append_capped-map (λ x. x.capacity.backlog_depth) ss s i;
  workers = append_capped-map (λ x. x.capacity.workers) ss s i;
  running = append_capped-map (λ x. x.totals.running) ss s i;
  completed_per_min = append_capped-map (λ x. x.completed_per_min) ss s i;
  oldest_wait_sec = append_capped-map (λ x. x.capacity.oldest_wait_sec) ss s i;
  sync_match_pct = push-filled ss s i;
  workers_by_version = [];
}

unfoldable pub push_all : History → List Sample → History
push_all h [] = h
push_all h (s ∷ ss) = push_all (push h s) ss

push_all-view :
    (ss : List Sample) (before : List Sample) → push_all (view before) ss ≡ view (before ++ ss)
unfolding push_all
push_all-view [] before = ap view (sym (append-nil before))
push_all-view (s ∷ ss) before =
    ap (λ h. push_all h ss) (push-view before s)
    ∙ push_all-view ss (before ++ s ∷ [])
    ∙ ap view (append_assoc before (s ∷ []) ss)

-- The series that push extends are those of one that never forgets: after any samples, each holds
-- the last 120 points of its whole series, and in that of the synchronous matches a rate that is
-- not known shows the last one that was, or zero before any.
pub push_all_refines : (ss : List Sample) → push_all no_history ss ≡ view ss
unfolding view no_history fill
push_all_refines ss = push_all-view ss []
