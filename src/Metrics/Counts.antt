-- ===== src/Metrics/Counts.antt =====
-- internal/metrics: a Go map from a Build ID to a count, as an association list.
pub mod Laws
use temporal_serverless_rain.Base.{
  String, str_eq, ℕ, ◌+◌, List, [], ◌∷◌, Option, none, some, if◌then◌else◌,
}

abbrev pub Counts : Type 0
Counts = List (String × ℕ)

-- The bucket of what reported no Build ID.
abbrev pub unversioned_build : String
unversioned_build = "unversioned"

-- m[build]++
unfoldable pub bump : String → Counts → Counts
bump b [] = (b, 1) ∷ []
bump b ((c, n) ∷ m) = let rest = bump b m in if str_eq b c then (c, n + 1) ∷ m else (c, n) ∷ rest

-- m[build], which is zero for a missing key.
unfoldable pub count_of : String → Counts → ℕ
count_of b [] = 0
count_of b ((c, n) ∷ m) = let rest = count_of b m in if str_eq b c then n else rest

-- What a worker or a poller reported, if it reported anything: GetBuildId of a missing one is "".
unfoldable pub build_of : Option String → String
build_of none = unversioned_build
build_of (some b) = if str_eq b "" then unversioned_build else b

-- The loop over what was reported.
unfoldable pub bump_all : List (Option String) → Counts → Counts
unfolding bump build_of
bump_all [] m = m
bump_all (v ∷ vs) m = bump_all vs (bump (build_of v) m)
