-- ===== src/Base/Float/Bounds.antt =====
-- Rounding does not leave a bound that a float64 can be: a part of a whole is at most 100 percent.
use Prim.Native.Nat.{ℕ, zero, suc, ◌+◌, ◌-◌, ◌*◌, ◌/◌, ◌%◌, ◌^◌, ◌≤◌, ◌<◌}
use native.Mathlib.Omega.{arith}
use native.Mathlib.Nat.{
  div-le_of_le-mul, div-add-mod', two-pow-succ, pow-zero, one-le-pow, mul-div_cancel, mul-mod_left,
  mul-le-mul, mul-le-mul_right,
}
use mathlib.Core.Path.{◌≡◌, refl, sym, ap, ◌∙◌}
use mathlib.Core.Bool.{Bool, ◌&&◌, ◌||◌}
use temporal_serverless_rain.Base.Tests.{ltb, ◌==◌, if◌then◌else◌}
use temporal_serverless_rain.Base.Float.{
  Float, float, IsPercent, ◌/F◌, ◌*F◌, is_negative, size, signed, ◌+F◌, excess, nearest, unit,
  of_int,
}
use temporal_serverless_rain.Base.Int.{ℤ, pos, ◌+ℤ◌, eq_of_parts, ◌≤ℤ◌, ◌<ℤ◌}

half : (bits e n : ℕ) → n < 2 ^ (bits + suc e) → n < 2 ^ (bits + e) + 2 ^ (bits + e)
half bits e n h = grind (arith, two-pow-succ (bits + e))

excess-le : (bits fuel n e : ℕ) → n < 2 ^ (bits + e) → excess bits fuel n ≤ e
unfolding excess
excess-le bits zero n e h = omega arith
excess-le bits (suc fuel) n zero h = ground arith
excess-le bits (suc fuel) n (suc e) h =
    let rest = excess-le bits fuel (n / 2) e (omega (arith, half bits e n h)) in
    ground (arith, rest)

-- The whole part of a quotient, and that rounded up where there is a remainder, under a bound.
floor-le : (D q r k : ℕ) → 1 ≤ D → q * D + r ≤ k * D → q ≤ k
floor-le D q r k hd h = grind arith

ceil-le : (D q r k : ℕ) → 1 ≤ D → 1 ≤ r → q * D + r ≤ k * D → suc q ≤ k
ceil-le D q r k hd hr h = grind arith

round-le :
    (D q r ulp k : ℕ) (c : Bool)
    → 1 ≤ D
    → q * D + r ≤ k * D
    → (if ltb D (2 * r) || (D == 2 * r && c) then suc q * ulp else q * ulp) ≤ k * ulp
round-le D q zero ulp k c hd h =
    let f = mul-le-mul_right ulp (floor-le D q 0 k hd h) in ground arith
round-le D q (suc r) ulp k c hd h =
    let g = mul-le-mul_right ulp (ceil-le D q (suc r) k hd (omega arith) h) in
    let f = mul-le-mul_right ulp (floor-le D q (suc r) k hd h) in ground (arith, f, g)

pow-split : (e f : ℕ) → 2 ^ (f + e) ≡ 2 ^ f * 2 ^ e
pow-split e zero = grind (arith, pow-zero 2)
pow-split e (suc f) = grind (arith, pow-split e f, two-pow-succ (f + e), two-pow-succ f)

nearest_lem :
    (n d c e f : ℕ)
    → 1 ≤ d
    → n ≤ c * (2 ^ f * 2 ^ e) * d
    → excess 53 2100 (n / d) ≡ e
    → nearest 53 n d ≤ c * (2 ^ f * 2 ^ e)
unfolding nearest
nearest_lem n d c e f hd h he = rw he (
    let p : 1 ≤ 2 ^ e = one-le-pow e 2 (omega arith) in
    let p' : 1 ≤ d * 2 ^ e = mul-le-mul hd p in
    let b =
      round-le (d * 2 ^ e) (n / (d * 2 ^ e)) (n % (d * 2 ^ e)) (2 ^ e) (c * 2 ^ f)
        (n / (d * 2 ^ e) % 2 == 1) p' (grind (arith, div-add-mod' n (d * 2 ^ e))) in
    grind (arith, b))

unit_split : (e : ℕ) → e ≤ 1074 → unit ≡ 2 ^ (1074 - e) * 2 ^ e
unfolding unit
unit_split e h =
    let s : 1074 ≡ 1074 - e + e = omega arith in ap (λ m. 2 ^ m) s ∙ pow-split e (1074 - e)

pub unit_pos : 1 ≤ unit
unfolding unit
unit_pos = omega arith

bound_1 : 1 * unit < 2 ^ (53 + 1074)
unfolding unit
bound_1 = omega arith

bound_100 : 100 * unit < 2 ^ (53 + 1074)
unfolding unit
bound_100 = omega arith

-- A quotient of at most c rounds to at most c, for c up to 2 ^ 53.
nearest-le :
    (n d c : ℕ) → 1 ≤ d → c * unit < 2 ^ (53 + 1074) → n ≤ c * unit * d → nearest 53 n d ≤ c * unit
nearest-le n d c hd hc h =
    let q : n / d ≤ c * unit = div-le_of_le-mul d (grind (arith, h)) in
    let e = excess-le 53 2100 (n / d) 1074 (omega (arith, q, hc)) in
    let s = unit_split (excess 53 2100 (n / d)) e in
    rw s (nearest_lem n d c _ _ hd (rw (sym s) h) refl)

part-le : (x y : ℕ) → x ≤ y → 1 ≤ y → nearest 53 ((x + 0) * unit) (y + 0) ≤ 1 * unit
part-le x y h hy =
    nearest-le ((x + 0) * unit) (y + 0) 1 (omega (arith, hy)) bound_1
      (grind (arith, mul-le-mul_right unit h))

hundred-le : (q : ℕ) → q ≤ 1 * unit → nearest 53 ((q + 0) * (100 * unit + 0)) unit ≤ 100 * unit
hundred-le q h =
    nearest-le ((q + 0) * (100 * unit + 0)) unit 100 unit_pos bound_100
      (grind (arith, mul-le-mul_right (100 * unit) h))

-- A part of a whole, as a percentage of it, is between 0 and 100.
pub part-IsPercent :
    (a b : Float) → float 0 ≤ℤ a → a ≤ℤ b → float 0 <ℤ b → IsPercent (a /F b *F float 100)
unfolding ◌/F◌ ◌*F◌ is_negative size
part-IsPercent (pos x) (pos y) ha h hb =
    (omega arith, omega (arith, hundred-le _ (part-le x y (omega (arith, h)) (omega (arith, hb)))))
part-IsPercent a b ha h hb = absurd (ground arith)

whole_step :
    (D u v : ℕ) (c : Bool) → 1 ≤ D → (if ltb D (2 * 0) || (D == 2 * 0 && c) then u else v) ≡ v
whole_step D u v c h = ground arith

pub below : (x : ℕ) → x < 2 ^ 53 → x * unit < 2 ^ (53 + 1074)
unfolding unit
below x h = grind (arith, unit_pos)

whole_quotient : (x e f : ℕ) → x * (2 ^ f * 2 ^ e) / (1 * 2 ^ e) ≡ x * 2 ^ f
whole_quotient x e f =
    let p : 0 < 2 ^ e = one-le-pow e 2 (omega arith) in
    let s : x * (2 ^ f * 2 ^ e) ≡ (x * 2 ^ f) * (1 * 2 ^ e) = grind arith in
    rw s (mul-div_cancel (x * 2 ^ f) (omega (arith, p)))

whole_remainder : (x e f : ℕ) → x * (2 ^ f * 2 ^ e) % (1 * 2 ^ e) ≡ 0
whole_remainder x e f =
    let s : x * (2 ^ f * 2 ^ e) ≡ (x * 2 ^ f) * (1 * 2 ^ e) = grind arith in
    rw s (mul-mod_left (x * 2 ^ f) (1 * 2 ^ e))

exact_lem :
    (x e f : ℕ)
    → excess 53 2100 (x * (2 ^ f * 2 ^ e) / 1) ≡ e
    → nearest 53 (x * (2 ^ f * 2 ^ e)) 1 ≡ x * (2 ^ f * 2 ^ e)
unfolding nearest
exact_lem x e f he =
    rw (he, whole_quotient x e f, whole_remainder x e f)
      (whole_step (1 * 2 ^ e) _ _ _ (omega (arith, one-le-pow e 2 (omega arith))) ∙ grind arith)

-- An integer below 2 ^ 53 is a float64.
pub of_int-exact : (x : ℕ) → x < 2 ^ 53 → of_int (pos x) ≡ float x
unfolding of_int is_negative size
of_int-exact x h =
    let b : x * unit < 2 ^ (53 + 1074) = below x h in
    let e = excess-le 53 2100 (x * unit / 1) 1074 (omega (arith, b)) in
    let s = unit_split (excess 53 2100 (x * unit / 1)) e in
    let r : nearest 53 (x * unit) 1 ≡ x * unit =
      rw s (exact_lem x _ _ (ap (λ u. excess 53 2100 (x * u / 1)) (sym s))) in
    ap pos (ap (λ n. nearest 53 (n * unit) 1) (omega arith) ∙ r)

scaled : (x y : ℕ) → x ≤ y → x * unit ≤ y * unit
scaled x y h = mul-le-mul_right unit h

-- A part of a whole number below 2 ^ 53, as a percentage of it.
pub share-IsPercent :
    (a b : ℤ)
    → pos 0 ≤ℤ a
    → a ≤ℤ b
    → pos 0 <ℤ b
    → b <ℤ pos (2 ^ 53)
    → IsPercent (of_int a /F of_int b *F float 100)
share-IsPercent (pos x) (pos y) ha h hb hl =
    rw (of_int-exact x (omega (arith, h, hl)), of_int-exact y (omega (arith, hl)))
      (part-IsPercent (float x) (float y) (omega arith)
        (omega (arith, scaled x y (omega (arith, h))))
        (omega (arith, unit_pos, scaled 1 y (omega (arith, hb)))))
share-IsPercent a b ha h hb hl = absurd (ground arith)

pos_sum : (x y : ℕ) → pos x +ℤ pos y ≡ pos (x + y)
unfolding ◌+ℤ◌
pos_sum x y = eq_of_parts (pos x +ℤ pos y) (pos (x + y)) (ground arith)

-- A sum and a product of numbers up to whole numbers.
pub +F-le :
    (x y c d : ℕ)
    → x ≤ c * unit
    → y ≤ d * unit
    → (c + d) * unit < 2 ^ (53 + 1074)
    → (m : ℕ) × ((pos x +F pos y ≡ pos m) × (m ≤ (c + d) * unit))
unfolding ◌+F◌ is_negative size
+F-le x y c d hx hy h = (
  nearest 53 (x + y + 0) 1,
  (
    ap (λ s. signed 53 (is_negative s) (size s) 1) (pos_sum x y),
    nearest-le (x + y + 0) 1 (c + d) (omega arith) h (grind (arith, hx, hy)),
  ),
)

pub *F-le :
    (x y c d : ℕ)
    → x ≤ c * unit
    → y ≤ d * unit
    → (c * d) * unit < 2 ^ (53 + 1074)
    → (m : ℕ) × ((pos x *F pos y ≡ pos m) × (m ≤ (c * d) * unit))
unfolding ◌*F◌ is_negative size
*F-le x y c d hx hy h = (
  nearest 53 ((x + 0) * (y + 0)) unit,
  (refl, nearest-le ((x + 0) * (y + 0)) unit (c * d) unit_pos h (grind (arith, mul-le-mul hx hy))),
)
