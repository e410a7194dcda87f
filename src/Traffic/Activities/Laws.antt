-- ===== src/Traffic/Activities/Laws.antt =====
-- Which version and which fault an order gets.
use temporal_serverless_rain.Base.{
  ◌≡◌, refl, ◌↔◌, Bool-cases, Option-cases, inl, inr, String, ℤ, ◌<ℤ◌, ◌≤ℤ◌, ltb_ℤ, leb_ℤ, true,
  false, List, [], ◌∷◌, Option, none, some, is_some, arith,
}
use temporal_serverless_rain.Base.Float.{Float, float}
use temporal_serverless_rain.Traffic.Types.{ChaosConfig, SplitEntry, Split}
use temporal_serverless_rain.Traffic.Control.{active}
use temporal_serverless_rain.Traffic.Activities.{
  WeightedBuild, unknown_target, Builds, resolved, unresolved, add_share, prepend, resolve_shares,
  normalise, normalised, resolve_split, pick_build, sample_chaos,
}

below : (p q : ℤ) → ltb_ℤ p q ≡ true → p <ℤ q
below p q h = ground arith

not_below : (p q : ℤ) → ltb_ℤ p q ≡ false → q ≤ℤ p
not_below p q h = ground arith

-- The first build that covers the draw, and if none does, the last one.
pub data Picks (draw : Float) : List WeightedBuild → WeightedBuild → Type 0 where
  last : (b : WeightedBuild) → Picks draw (b ∷ []) b
  covers :
      (b c : WeightedBuild) (cs : List WeightedBuild) → draw <ℤ b.up_to → Picks draw (b ∷ c ∷ cs) b
  later :
      (b c : WeightedBuild) (cs : List WeightedBuild) (x : WeightedBuild)
      → b.up_to ≤ℤ draw
      → Picks draw (c ∷ cs) x
      → Picks draw (b ∷ c ∷ cs) x

-- Of one build or more, the pick is the first whose cumulative share is above the draw, or, when
-- none of those before it is, the last.
pub pick_build-Picks :
    (b : WeightedBuild) (bs : List WeightedBuild) (draw : Float)
    → (x : WeightedBuild) × (pick_build (b ∷ bs) draw ≡ some x) × Picks draw (b ∷ bs) x
unfolding pick_build
pick_build-Picks b [] draw = (b, refl, Picks.last b)
pick_build-Picks b (c ∷ cs) draw = elim (Bool-cases (ltb_ℤ draw b.up_to)) [
  | inl e ↦ rw (e, pick_build) (b, refl, Picks.covers b c cs (below draw b.up_to e))
  | inr e ↦
      let (x, eq, p) = pick_build-Picks c cs draw in
      rw (e, pick_build) (x, eq, Picks.later b c cs x (not_below draw b.up_to e) p)
]

-- An order carries the fault exactly when there is one, at a positive percentage that is above the
-- draw.
pub sample_chaos_lem :
    (cfg : ChaosConfig) (draw : Float)
    → (is_some (sample_chaos cfg draw) ≡ true)
      ↔ ((is_some cfg.spec ≡ true) × (float 0 <ℤ cfg.pct) × (draw <ℤ cfg.pct))
unfolding sample_chaos
sample_chaos_lem cfg draw = ground arith

-- These builds serve a split: one for each positive share, in its order, with the Build ID that its
-- label resolves to.
pub data Serves (resolve : String → Option String) : Split → List WeightedBuild → Type 0 where
  nothing : Serves resolve [] []
  skips :
      (e : SplitEntry) (es : Split) (bs : List WeightedBuild)
      → e.pct ≤ℤ float 0
      → Serves resolve es bs
      → Serves resolve (e ∷ es) bs
  takes :
      (e : SplitEntry) (es : Split) (b : WeightedBuild) (bs : List WeightedBuild)
      → float 0 <ℤ e.pct
      → b.label ≡ e.version
      → resolve e.version ≡ some b.build_id
      → Serves resolve es bs
      → Serves resolve (e ∷ es) (b ∷ bs)

-- A version that has a positive share.
pub data HasShare (v : String) : Split → Type 0 where
  here : (e : SplitEntry) (es : Split) → e.version ≡ v → float 0 <ℤ e.pct → HasShare v (e ∷ es)
  there : (e : SplitEntry) (es : Split) → HasShare v es → HasShare v (e ∷ es)

abbrev pub Resolves : (String → Option String) → Split → Builds → Type 0
Resolves resolve split (resolved bs total) = Serves resolve split bs
Resolves resolve split (unresolved (unknown_target v)) = (resolve v ≡ none) × HasShare v split

positive : (p : ℤ) → leb_ℤ p (float 0) ≡ false → float 0 <ℤ p
positive p h = ground arith

not_positive : (p : ℤ) → leb_ℤ p (float 0) ≡ true → p ≤ℤ float 0
not_positive p h = ground arith

module _ (resolve : String → Option String) where
  skip-Resolves :
      (e : SplitEntry) (es : Split) (o : Builds)
      → e.pct ≤ℤ float 0
      → Resolves resolve es o
      → Resolves resolve (e ∷ es) o
  skip-Resolves e es (resolved bs total) h r = Serves.skips e es bs h r
  skip-Resolves e es (unresolved (unknown_target v)) h r = (r.0, HasShare.there e es r.1)

  prepend-Resolves :
      (e : SplitEntry) (es : Split) (b : WeightedBuild) (o : Builds)
      → float 0 <ℤ e.pct
      → b.label ≡ e.version
      → resolve e.version ≡ some b.build_id
      → Resolves resolve es o
      → Resolves resolve (e ∷ es) (prepend b o)
  prepend-Resolves e es b (resolved bs total) h l i r = Serves.takes e es b bs h l i r
  prepend-Resolves e es b (unresolved (unknown_target v)) h l i r = (r.0, HasShare.there e es r.1)

  add_share-Resolves :
      (e : SplitEntry) (es : Split) (c : Float) (rest : Float → Builds)
      → float 0 <ℤ e.pct
      → ((c' : Float) → Resolves resolve es (rest c'))
      → Resolves resolve (e ∷ es) (add_share e c (resolve e.version) rest)
  unfolding add_share
  add_share-Resolves e es c rest h r = elim (Option-cases (resolve e.version)) [
    | inl n ↦ rw (n, add_share) (n, HasShare.here e es refl h)
    | inr (id, s) ↦ rw (s, add_share) (prepend-Resolves e es _ (rest _) h refl s (r _))
  ]

  resolve_shares-Resolves :
      (c : Float) (es : Split) → Resolves resolve es (resolve_shares resolve c es)
  unfolding resolve_shares
  resolve_shares-Resolves c [] = Serves.nothing
  resolve_shares-Resolves c (e ∷ es) = elim (Bool-cases (leb_ℤ e.pct (float 0))) [
    | inl n ↦
        rw (n, resolve_shares)
          (skip-Resolves e es _ (not_positive e.pct n) (resolve_shares-Resolves c es))
    | inr p ↦
        rw (p, resolve_shares)
          (add_share-Resolves e es c _ (positive e.pct p) (λ c'. resolve_shares-Resolves c' es))
  ]

  normalise-Serves :
      (total : Float) (es : Split) (bs : List WeightedBuild)
      → Serves resolve es bs
      → Serves resolve es (normalise total bs)
  unfolding normalise
  normalise-Serves total _ _ Serves.nothing = Serves.nothing
  normalise-Serves total _ bs (Serves.skips e es _ h r) =
      Serves.skips e es (normalise total bs) h (normalise-Serves total es bs r)
  normalise-Serves total _ _ (Serves.takes e es b bs h l i r) =
      Serves.takes e es _ (normalise total bs) h l i (normalise-Serves total es bs r)

  normalised-Resolves :
      (es : Split) (o : Builds) → Resolves resolve es o → Resolves resolve es (normalised o)
  normalised-Resolves es (resolved bs total) r = normalise-Serves total es bs r
  normalised-Resolves es (unresolved (unknown_target v)) r = r

-- An active split resolves to one build for each of its positive shares, in their order, with the
-- Build ID of the label; or it is refused because of a version that has a positive share and
-- that the deployment does not know.
pub resolve_split-Resolves :
    (resolve : String → Option String) (split : Split)
    → active split ≡ true
    → Resolves resolve split (resolve_split resolve split)
unfolding resolve_split
resolve_split-Resolves resolve split on =
    rw (on, resolve_split)
      (normalised-Resolves resolve split _ (resolve_shares-Resolves resolve (float 0) split))
