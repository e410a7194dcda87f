-- ===== src/Orders/Register/Laws.antt =====
-- internal/orders/register.go: an order of any number can be made up.
use temporal_serverless_rain.Base.{
  String, ℕ, suc, zero, ◌+◌, ◌*◌, ◌%◌, ◌<◌, List, [], ◌∷◌, Option, some, length, get_elem?, ◌≡◌,
  refl, arith,
}
use temporal_serverless_rain.Orders.Types.{ChaosSpec, OrderInput}
use temporal_serverless_rain.Orders.Register.{menu, stores, items_of, new_order_input}

get_elem?-lt {ℓ} :
    {A : Type ℓ} (xs : List A) (i : ℕ) → i < length xs → (a : A) × (get_elem? xs i ≡ some a)
get_elem?-lt [] i h = absurd (omega (arith, h))
get_elem?-lt (x ∷ xs) zero h = (x, refl)
get_elem?-lt (x ∷ xs) (suc i) h = get_elem?-lt xs i (omega (arith, h))

-- An order of any number can be made up: no index is past the menu or the stores. It has the name
-- of its number and the fault that it is given.
pub new_order_input_lem :
    (id_of : ℕ → String) (seq : ℕ) (chaos : Option ChaosSpec)
    → (o : OrderInput) × ((new_order_input id_of seq chaos ≡ some o)
        × ((o.order_id ≡ id_of seq) × (o.chaos ≡ chaos)))
unfolding new_order_input
new_order_input_lem id_of seq chaos =
    let a = get_elem?-lt menu (seq % length menu) (omega arith) in
    let b = get_elem?-lt menu ((seq * 7 + 3) % length menu) (omega arith) in
    let c = get_elem?-lt stores (seq % length stores) (omega arith) in
    (
      record { order_id = id_of seq; store = c.0; items = items_of a.0 b.0; chaos = chaos },
      (rw (a.1, b.1, c.1) refl, (refl, refl)),
    )
