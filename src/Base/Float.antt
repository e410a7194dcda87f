-- ===== src/Base/Float.antt =====
-- Go's float32 and float64, for code that compares them. Every finite number of either type is a
-- whole multiple of 2 ^ -1074, the smallest positive float64, so a number is that multiple, and a
-- comparison is exact. (JSON carries no infinity and no NaN.)
pub mod Laws
pub mod Bounds
use Prim.Native.Nat.{ℕ, zero, suc, ◌+◌, ◌-◌, ◌*◌, ◌/◌, ◌%◌, ◌^◌}
use mathlib.Core.Bool.{Bool, true, false, not, ◌&&◌, ◌||◌}
use temporal_serverless_rain.Base.Tests.{ltb, ◌==◌, if◌then◌else◌}
use temporal_serverless_rain.Base.Int.{ℤ, pos, negsuc, pos_part, neg_part, ◌≤ℤ◌, ◌+ℤ◌, ◌-ℤ◌, quot}

abbrev pub Float : Type 0
Float = ℤ

-- The number 1, as a multiple of 2 ^ -1074.
unfoldable pub unit : ℕ
unit = 2 ^ 1074

-- The number n.
abbrev pub float : ℕ → Float
float n = pos (n * unit)

-- A percentage between 0 and 100.
abbrev pub IsPercent : Float → Type 0
IsPercent p = (float 0 ≤ℤ p) × (p ≤ℤ float 100)

-- How many of the low bits of a number have no room in a significand of `bits`. A sum of two
-- float64 has at most 2100 bits here, which is the fuel.
excess : ℕ → ℕ → ℕ → ℕ
excess bits zero n = 0
excess bits (suc fuel) n =
    let rest = excess bits fuel (n / 2) in if ltb n (2 ^ bits) then 0 else suc rest

-- n / d, rounded to what a significand holds, of two that are as near the one that is even.
nearest : ℕ → ℕ → ℕ → ℕ
unfolding excess
nearest bits n d =
    let ulp = 2 ^ excess bits 2100 (n / d) in
    let q = n / (d * ulp) in
    let r = n % (d * ulp) in
    if ltb (d * ulp) (2 * r) || (d * ulp == 2 * r && q % 2 == 1) then suc q * ulp else q * ulp

minus : ℕ → Float
minus m = if m == 0 then pos 0 else negsuc (m - 1)

-- The number n / d of a sign, as a float64 or a float32.
abbrev signed : ℕ → Bool → ℕ → ℕ → Float
signed bits negative n d = if negative then minus (nearest bits n d) else pos (nearest bits n d)

is_negative : ℤ → Bool
is_negative (pos n) = false
is_negative (negsuc n) = true

size : ℤ → ℕ
size a = pos_part a + neg_part a

abbrev differ : Bool → Bool → Bool
differ true b = not b
differ false b = b

-- The sum, the difference, the product and the quotient of two float64. (None that overflows is
-- modelled, and no division by zero: the code works on percentages, and divides by a positive one.)
infixl 65 ◌+F◌
unfoldable pub ◌+F◌ : Float → Float → Float
unfolding nearest minus is_negative size
a +F b = let s = a +ℤ b in signed 53 (is_negative s) (size s) 1

infixl 65 ◌-F◌
unfoldable pub ◌-F◌ : Float → Float → Float
unfolding nearest minus is_negative size
a -F b = let s = a -ℤ b in signed 53 (is_negative s) (size s) 1

infixl 70 ◌*F◌ ◌/F◌
unfoldable pub ◌*F◌ : Float → Float → Float
unfolding nearest minus is_negative size
a *F b = signed 53 (differ (is_negative a) (is_negative b)) (size a * size b) unit

unfoldable pub ◌/F◌ : Float → Float → Float
unfolding nearest minus is_negative size
a /F b = signed 53 (differ (is_negative a) (is_negative b)) (size a * unit) (size b)

-- The difference of two float32 that are percentages.
infixl 65 ◌-F32◌
unfoldable pub ◌-F32◌ : Float → Float → Float
unfolding nearest minus is_negative size
a -F32 b = let s = a -ℤ b in signed 24 (is_negative s) (size s) 1

-- Go's conversion of a float64 to an integer, which truncates towards zero.
abbrev pub truncate : Float → ℤ
truncate a = quot a unit

times_billion : ℤ → ℤ
times_billion (pos n) = pos (n * 1_000_000_000)
times_billion (negsuc n) = negsuc (suc n * 1_000_000_000 - 1)

-- Go's conversion of an integer to a float64.
unfoldable pub of_int : ℤ → Float
unfolding nearest minus is_negative size
of_int a = signed 53 (is_negative a) (size a * unit) 1

-- time.Duration.Seconds: whole seconds, and nanoseconds over 1e9.
unfoldable pub seconds : ℤ → Float
unfolding of_int times_billion
seconds d =
    let whole = quot d 1_000_000_000 in
    let nsec = d -ℤ times_billion whole in of_int whole +F of_int nsec /F float 1_000_000_000

-- Go's conversion of a float64 to a float32.
unfoldable pub to_float32 : Float → Float
unfolding nearest minus is_negative size
to_float32 a = signed 24 (is_negative a) (size a) 1
