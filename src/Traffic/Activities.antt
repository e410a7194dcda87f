-- ===== src/Traffic/Activities.antt =====
-- internal/traffic/activities.go: how an order of a batch gets its version and its fault. The
-- deployment's answer to a label, with none for any error of ResolveLabel, and a random draw
-- between 0 and 100 are parameters. (There is a deployment client: the worker always gives one.)
pub mod Laws
pub mod Start
use temporal_serverless_rain.Base.{
  String, Bool, false, List, [], ◌∷◌, Option, none, some, ◌||◌, ltb_ℤ, leb_ℤ, if◌then◌else◌,
  is_some, not,
}
use temporal_serverless_rain.Base.Float.{Float, float, ◌+F◌, ◌/F◌, ◌*F◌}
use temporal_serverless_rain.Orders.Types.{ChaosSpec}
use temporal_serverless_rain.Traffic.Types.{ChaosConfig, SplitEntry, Split}
use temporal_serverless_rain.Traffic.Control.{active}

-- One version's share of a split, with its Build ID and the cumulative share.
pub record WeightedBuild : Type 0 where
  pub label : String
  pub build_id : String
  pub up_to : Float

pub data SplitError : Type 0 where
  unknown_target : String → SplitError

pub data Builds : Type 0 where
  resolved : List WeightedBuild → Float → Builds
  unresolved : SplitError → Builds

abbrev pub prepend : WeightedBuild → Builds → Builds
prepend b (resolved bs total) = resolved (b ∷ bs) total
prepend b (unresolved e) = unresolved e

pub add_share : SplitEntry → Float → Option String → (Float → Builds) → Builds
add_share e cumulative none rest = unresolved (unknown_target e.version)
add_share e cumulative (some id) rest =
    let upto = cumulative +F e.pct in
    prepend (record { label = e.version; build_id = id; up_to = upto }) (rest upto)

-- The loop over the shares, which skips those that are not positive.
unfoldable pub resolve_shares : (String → Option String) → Float → Split → Builds
unfolding add_share
resolve_shares resolve cumulative [] = resolved [] cumulative
resolve_shares resolve cumulative (e ∷ es) =
    let skipped = resolve_shares resolve cumulative es in
    let taken = add_share e cumulative (resolve e.version) (λ c. resolve_shares resolve c es) in
    if leb_ℤ e.pct (float 0) then skipped else taken

-- Normalises the cumulative shares to the total.
unfoldable pub normalise : Float → List WeightedBuild → List WeightedBuild
normalise total [] = []
normalise total (b ∷ bs) = record b { up_to = b.up_to /F total *F float 100 } ∷ normalise total bs

abbrev pub normalised : Builds → Builds
normalised (resolved bs total) = resolved (normalise total bs) total
normalised (unresolved e) = unresolved e

-- resolveSplit, which is nothing for a split that is not active.
unfoldable pub resolve_split : (String → Option String) → Split → Builds
resolve_split resolve split =
    if active split
    then normalised (resolve_shares resolve (float 0) split)
    else resolved [] (float 0)

-- pickBuild: the first build whose cumulative share covers the draw, or else the last; none where
-- the code would read past an empty list.
unfoldable pub pick_build : List WeightedBuild → Float → Option WeightedBuild
pick_build [] draw = none
pick_build (b ∷ []) draw = some b
pick_build (b ∷ c ∷ cs) draw =
    let later = pick_build (c ∷ cs) draw in if ltb_ℤ draw b.up_to then some b else later

-- sampleChaos: whether an order carries the fault.
unfoldable pub sample_chaos : ChaosConfig → Float → Option ChaosSpec
sample_chaos cfg draw =
    if not (is_some cfg.spec) || leb_ℤ cfg.pct (float 0)
    then none
    else if leb_ℤ cfg.pct draw
    then none
    else cfg.spec
