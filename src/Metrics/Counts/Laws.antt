-- ===== src/Metrics/Counts/Laws.antt =====
-- internal/metrics: the counts by Build ID are how often each was reported.
use temporal_serverless_rain.Base.{
  String, str_eq, eq_iff, ℕ, suc, ◌+◌, List, [], ◌∷◌, ◌++◌, Option, none, some, Bool, if◌then◌else◌,
  ◌≡◌, refl, arith, Bool-cases, true, false, ◌⊎◌, inl, inr, ap, ◌∙◌, ◌&&◌, ◌||◌, not,
}
use temporal_serverless_rain.Metrics.Counts.{Counts, bump, count_of, build_of, bump_all}

-- Whether what was reported belongs under a Build ID: it is that one, or it is missing or empty,
-- and the Build ID is "unversioned".
unfoldable pub is_under : String → Option String → Bool
is_under b none = str_eq b "unversioned"
is_under b (some c) = (str_eq c "" && str_eq b "unversioned") || (not (str_eq c "") && str_eq b c)

is_under-build_of : (b : String) (v : Option String) → str_eq b (build_of v) ≡ is_under b v
unfolding is_under build_of
is_under-build_of b none = refl
is_under-build_of b (some c) = elim (Bool-cases (str_eq c "")) [
  | inl e ↦ rw e (ground arith)
  | inr e ↦ rw e (ground arith)
]

-- How often a Build ID was reported.
unfoldable pub reported : String → List (Option String) → ℕ
reported b [] = 0
reported b (v ∷ vs) = let rest = reported b vs in if is_under b v then suc rest else rest

same_of : {b c : String} → str_eq b c ≡ true → b ≡ c
same_of {b} {c} h = (eq_iff b c).0 h

bump_entry :
    (b c d : String) (n : ℕ) (m : Counts)
    → (str_eq c d ≡ true) ⊎ (str_eq c d ≡ false)
    → (str_eq b c ≡ true) ⊎ (str_eq b c ≡ false)
    → count_of b (bump c m) ≡ (if str_eq b c then suc (count_of b m) else count_of b m)
    → count_of b (bump c ((d, n) ∷ m))
      ≡ (if str_eq b c then suc (count_of b ((d, n) ∷ m)) else count_of b ((d, n) ∷ m))
unfolding count_of bump
bump_entry b c d n m (inl e) f h =
    let same : str_eq b c ≡ str_eq b d = ap (str_eq b) (same_of e) in rw (e, same) (ground arith)
bump_entry b c d n m (inr e) (inl f) h =
    let other : str_eq b d ≡ false = ap (λ x. str_eq x d) (same_of f) ∙ e in
    rw (e, f, other) (h ∙ rw f (refl))
bump_entry b c d n m (inr e) (inr f) h =
    rw (e, f) (ap (λ x. if str_eq b d then n else x) (h ∙ rw f (refl)))

count_of-bump :
    (b c : String) (m : Counts)
    → count_of b (bump c m) ≡ (if str_eq b c then suc (count_of b m) else count_of b m)
unfolding count_of bump
count_of-bump b c [] = ground arith
count_of-bump b c ((d, n) ∷ m) =
    bump_entry b c d n m (Bool-cases (str_eq c d)) (Bool-cases (str_eq b c)) (count_of-bump b c m)

pub count_of-bump_all :
    (b : String) (vs : List (Option String)) (m : Counts)
    → count_of b (bump_all vs m) ≡ count_of b m + reported b vs
unfolding bump_all reported
count_of-bump_all b [] m = omega arith
count_of-bump_all b (v ∷ vs) m = ground (
  arith,
  count_of-bump_all b vs (bump (build_of v) m),
  count_of-bump b (build_of v) m,
  is_under-build_of b v,
)

pub reported-append :
    (b : String) (vs ws : List (Option String))
    → reported b (vs ++ ws) ≡ reported b vs + reported b ws
unfolding reported
reported-append b [] ws = omega arith
reported-append b (v ∷ vs) ws = ground (arith, reported-append b vs ws)
