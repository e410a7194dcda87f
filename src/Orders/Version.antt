-- ===== src/Orders/Version.antt =====
-- internal/orders/version.go: versions, strings with constants for the known values, and
-- the pipeline of each.
pub mod Laws
use temporal_serverless_rain.Base.{String, str_eq, List, [], ◌∷◌, Option, none, some, if◌then◌else◌}
use temporal_serverless_rain.Orders.Step
use temporal_serverless_rain.Orders.Step.{Step}

abbrev pub Version : Type 0
Version = String

abbrev pub v1 : Version
v1 = "v1"

abbrev pub v2 : Version
v2 = "v2"

abbrev pub v3 : Version
v3 = "v3"

abbrev pub v4 : Version
v4 = "v4"

abbrev pub v5 : Version
v5 = "v5"

abbrev pub all_versions : List Version
all_versions = v1 ∷ v2 ∷ v3 ∷ v4 ∷ v5 ∷ []

-- The ordered pipeline of a version.
unfoldable pub steps_for : Version → List Step
steps_for v =
    if str_eq v v1
    then Step.received ∷ Step.payment ∷ Step.prep ∷ Step.handoff ∷ []
    else if str_eq v v2
    then Step.received ∷ Step.payment ∷ Step.loyalty ∷ Step.prep ∷ Step.handoff ∷ []
    else if str_eq v v3
    then Step.received ∷ Step.fraud_check ∷ Step.payment ∷ Step.loyalty ∷ Step.prep ∷ Step.handoff
      ∷ []
    else if str_eq v v4
    then Step.received ∷ Step.fraud_check ∷ Step.payment ∷ Step.loyalty ∷ Step.prep
      ∷ Step.mobile_dispatch ∷ Step.handoff ∷ []
    else if str_eq v v5
    then Step.received ∷ Step.payment ∷ Step.loyalty ∷ Step.prep ∷ Step.drive_thru ∷ []
    else []

-- The loop of ParseVersion over the known versions.
pub find_version : String → List Version → Option Version
find_version s [] = none
find_version s (v ∷ vs) = if str_eq s v then some v else find_version s vs

unfoldable pub parse_version : String → Option Version
unfolding find_version
parse_version s = find_version s all_versions
