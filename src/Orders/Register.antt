-- ===== src/Orders/Register.antt =====
-- internal/orders/register.go: what a worker of a version registers, and the orders that the
-- generator makes up. What fmt.Sprintf makes of an order's number is a parameter.
pub mod Laws
use temporal_serverless_rain.Base.{
  String, str_eq, ℕ, suc, zero, ◌+◌, ◌*◌, ◌%◌, Bool, not, List, [], ◌∷◌, Option, none, some, map,
  length, get_elem?, if◌then◌else◌,
}
use temporal_serverless_rain.Orders.Step.{Step, activity_name}
use temporal_serverless_rain.Orders.Version.{Version, steps_for}
use temporal_serverless_rain.Orders.Types.{ChaosSpec, Item, OrderInput}

abbrev pub workflow_type_name : String
workflow_type_name = "CustomerOrder"

abbrev pub gate_workflow_type_name : String
gate_workflow_type_name = "OrderGate"

pub data VersioningBehavior : Type 0 where
  pinned auto_upgrade : VersioningBehavior

pub data Registration : Type 0 where
  workflow : String → VersioningBehavior → Registration
  activity : String → Registration

-- Register: the two Workflows, pinned, and one Activity for each step of the version's pipeline.
unfoldable pub register : Version → List Registration
unfolding steps_for
register v =
    workflow workflow_type_name pinned
    ∷ workflow gate_workflow_type_name pinned
    ∷ map (λ s. activity (activity_name s)) (steps_for v)

abbrev item : String → ℕ → Item
item name qty = record { name = name; qty = qty }

abbrev pub menu : List Item
menu =
    item "Double Double" 1
    ∷ item "Large Dark Roast" 1
    ∷ item "Boston Cream" 2
    ∷ item "Honey Dip" 1
    ∷ item "Ice Capp" 1
    ∷ item "Bagel B.E.L.T." 1
    ∷ item "Timbits 10-pack" 1
    ∷ item "Steeped Tea" 2
    ∷ item "Breakfast Wrap" 1
    ∷ item "Chili + Bun" 1
    ∷ []

abbrev pub stores : List String
stores =
    "Toronto — Front St" ∷ "Toronto — Yonge & Eg" ∷ "Mississauga — Square One" ∷ "Ottawa — Bank St"
    ∷ "Calgary — 17th Ave" ∷ "Vancouver — Robson" ∷ "Halifax — Spring Garden"
    ∷ "Montreal — Sainte-Catherine" ∷ []

abbrev pub items_of : Item → Item → List Item
items_of first second = first ∷ (if str_eq second.name first.name then [] else second ∷ [])

infixl 15 ◌>>=◌
abbrev ◌>>=◌ {ℓ κ} : {A : Type ℓ} {B : Type κ} → Option A → (A → Option B) → Option B
none >>= f = none
(some a) >>= f = f a

-- NewOrderInput. An index out of range would be none.
unfoldable pub new_order_input : (ℕ → String) → ℕ → Option ChaosSpec → Option OrderInput
new_order_input id_of seq chaos = do
  first ← get_elem? menu (seq % length menu)
  second ← get_elem? menu ((seq * 7 + 3) % length menu)
  store ← get_elem? stores (seq % length stores)
  some
      (record { order_id = id_of seq; store = store; items = items_of first second; chaos = chaos })
