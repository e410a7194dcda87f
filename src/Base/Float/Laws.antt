-- ===== src/Base/Float/Laws.antt =====
-- The sign of a sum, a difference, a product and a quotient of numbers that are not negative.
use Prim.Native.Nat.{ℕ, ◌*◌}
use temporal_serverless_rain.Base.Int.{ℤ, pos, negsuc, ◌≤ℤ◌, ◌+ℤ◌, ◌-ℤ◌, int_laws}
use native.Mathlib.Omega.{arith}
use mathlib.Core.Path.{◌≡◌, refl}
use mathlib.Core.Bool.{Bool, true, false}
use temporal_serverless_rain.Base.Float.{
  Float, signed, is_negative, size, unit, differ, ◌-F◌, ◌+F◌, ◌*F◌, ◌/F◌, of_int,
}

abbrev pub IsNonneg : Float → Type 0
IsNonneg a = pos 0 ≤ℤ a

is_negative-IsNonneg : (a : ℤ) → IsNonneg a → is_negative a ≡ false
unfolding is_negative
is_negative-IsNonneg (pos n) h = refl
is_negative-IsNonneg (negsuc n) h = absurd (omega arith)

signed-IsNonneg :
    (bits n d : ℕ) (negative : Bool) → negative ≡ false → IsNonneg (signed bits negative n d)
signed-IsNonneg bits n d true h = cc
signed-IsNonneg bits n d false h = omega arith

differ-IsNonneg :
    (a b : ℤ) → IsNonneg a → IsNonneg b → differ (is_negative a) (is_negative b) ≡ false
differ-IsNonneg a b ha hb = rw (is_negative-IsNonneg a ha, is_negative-IsNonneg b hb) (refl)

pub +F-IsNonneg : (a b : Float) → IsNonneg a → IsNonneg b → IsNonneg (a +F b)
unfolding ◌+F◌
+F-IsNonneg a b ha hb =
    signed-IsNonneg 53 (size (a +ℤ b)) 1 (is_negative (a +ℤ b))
      (is_negative-IsNonneg (a +ℤ b) (omega (int_laws, ha, hb)))

pub -F-IsNonneg : (a b : Float) → b ≤ℤ a → IsNonneg (a -F b)
unfolding ◌-F◌
-F-IsNonneg a b h =
    signed-IsNonneg 53 (size (a -ℤ b)) 1 (is_negative (a -ℤ b))
      (is_negative-IsNonneg (a -ℤ b) (omega (int_laws, h)))

pub *F-IsNonneg : (a b : Float) → IsNonneg a → IsNonneg b → IsNonneg (a *F b)
unfolding ◌*F◌
*F-IsNonneg a b ha hb =
    signed-IsNonneg 53 (size a * size b) unit (differ (is_negative a) (is_negative b))
      (differ-IsNonneg a b ha hb)

pub /F-IsNonneg : (a b : Float) → IsNonneg a → IsNonneg b → IsNonneg (a /F b)
unfolding ◌/F◌
/F-IsNonneg a b ha hb =
    signed-IsNonneg 53 (size a * unit) (size b) (differ (is_negative a) (is_negative b))
      (differ-IsNonneg a b ha hb)

pub of_int-IsNonneg : (a : ℤ) → pos 0 ≤ℤ a → IsNonneg (of_int a)
unfolding of_int
of_int-IsNonneg a h =
    signed-IsNonneg 53 (size a * unit) 1 (is_negative a) (is_negative-IsNonneg a h)
