-- ===== src/Deploy/Describe.antt =====
-- internal/deploy/deploy.go, Describe and ResolveLabel: the server's answer, labelled. What Label
-- answers for each Build ID during the call is a parameter. An error of the server, which is passed
-- on as it is, is not modelled.
pub mod Laws
use Prim.Native.String.{compare}
use text.Mathlib.Text.{is_lt}
use temporal_serverless_rain.Base.{
  String, str_eq, ℕ, ℤ, pos, ltb_ℤ, Bool, List, [], ◌∷◌, Option, none, some, if◌then◌else◌, map,
}
use temporal_serverless_rain.Base.Float.{Float, float, ◌-F32◌}
use temporal_serverless_rain.Deploy.Types.{Routing}

pub data Drainage : Type 0 where
  unspecified draining drained : Drainage

-- A version as the server lists it.
pub record Summary : Type 0 where
  pub build_id : String
  pub create_time : ℤ
  pub drainage : Drainage

-- The server's routing configuration.
pub record RoutingConfig : Type 0 where
  pub current : Option String
  pub ramping : Option String
  pub ramping_pct : Float

pub data Status : Type 0 where
  current ramping draining idle : Status

pub record Version : Type 0 where
  pub label : String
  pub build_id : String
  pub status : Status
  pub traffic_pct : Float
  pub create_time : ℤ
  pub workers : ℕ

unfoldable pub id_of : Option String → String
id_of none = ""
id_of (some b) = b

unfoldable pub label_of : (String → String) → Option String → String
label_of label none = ""
label_of label (some b) = label b

unfoldable pub routing_of : (String → String) → RoutingConfig → Routing
unfolding id_of label_of
routing_of label c = record {
  current_build_id = id_of c.current;
  current_label = label_of label c.current;
  ramping_build_id = id_of c.ramping;
  ramping_label = label_of label c.ramping;
  ramping_pct = c.ramping_pct;
}

drained_status : Drainage → Status
drained_status unspecified = Status.idle
drained_status draining = Status.draining
drained_status drained = Status.draining

-- The status of a version and its share of the traffic.
unfoldable pub role : Routing → Summary → Status × Float
unfolding drained_status
role r s =
    if str_eq s.build_id r.current_build_id
    then (Status.current, float 100 -F32 r.ramping_pct)
    else if str_eq s.build_id r.ramping_build_id
    then (Status.ramping, r.ramping_pct)
    else (drained_status s.drainage, float 0)

unfoldable pub version_of : (String → String) → Routing → Summary → Version
version_of label r s = record {
  label = label s.build_id;
  build_id = s.build_id;
  status = (role r s).0;
  traffic_pct = (role r s).1;
  create_time = s.create_time;
  workers = 0;
}

-- Label order, and then the order of creation.
pub less : Version → Version → Bool
less v w =
    if str_eq v.label w.label
    then ltb_ℤ v.create_time w.create_time
    else is_lt (compare v.label w.label)

-- sort.Slice by that order, which leaves the places of equals open: here the later goes behind.
unfoldable pub insert : Version → List Version → List Version
unfolding less
insert v [] = v ∷ []
insert v (w ∷ ws) = let rest = insert v ws in if less w v then w ∷ rest else v ∷ w ∷ ws

unfoldable pub sort : List Version → List Version
sort [] = []
sort (v ∷ vs) = insert v (sort vs)

unfoldable pub describe : (String → String) → RoutingConfig → List Summary → List Version
describe label c ss = sort (map (version_of label (routing_of label c)) ss)

unfoldable pub find_label : String → List Version → Option String
find_label l [] = none
find_label l (v ∷ vs) =
    let rest = find_label l vs in if str_eq v.label l then some v.build_id else rest

-- The Build ID of a label, or none if it is not registered.
unfoldable pub resolve_label :
    (String → String) → RoutingConfig → List Summary → String → Option String
resolve_label label c ss l = find_label l (describe label c ss)
