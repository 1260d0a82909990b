-- ===== src/Config/Types/Widths.antt =====
-- config/manager.go: a number that is written to a field fits the field's width.
use microlib.Prelude.{
  ℕ, zero, suc, ap, if-rule, ◌-◌, ◌*◌, ◌≤◌, ◌<◌, ℤ, pos, negsuc, inl, inr, Bool-cases, ltb, ◌≡◌,
  arith,
}
use microlib.Config.Values.{Width, w8, w16, w32, w64, half, wrap_uint, wrap_int}
use microlib.Text.Numbers.{minus}
use microlib.Config.Types.{InWidth}

pub wrap_uint-lt : (w : Width) (z : ℤ) → wrap_uint w z < 2 * half w
unfolding wrap_uint
wrap_uint-lt w8 (pos n) = omega arith
wrap_uint-lt w16 (pos n) = omega arith
wrap_uint-lt w32 (pos n) = omega arith
wrap_uint-lt w64 (pos n) = omega arith
wrap_uint-lt w8 (negsuc n) = omega arith
wrap_uint-lt w16 (negsuc n) = omega arith
wrap_uint-lt w32 (negsuc n) = omega arith
wrap_uint-lt w64 (negsuc n) = omega arith

minus-InWidth : (w : Width) (m : ℕ) → 1 ≤ m → m ≤ half w → InWidth w (minus m)
minus-InWidth w zero h k = absurd (omega (arith, h))
minus-InWidth w (suc n) h k = omega (arith, k)

pub wrap_int-InWidth : (w : Width) (z : ℤ) → InWidth w (wrap_int w z)
unfolding wrap_int
wrap_int-InWidth w z = elim (Bool-cases (ltb (wrap_uint w z) (half w))) [
  | inl low ↦ rw low (ground (arith, low))
  | inr high ↦
      let bound = wrap_uint-lt w z in
      rw high (
        minus-InWidth w (2 * half w - wrap_uint w z) (omega (arith, bound))
          (ground (arith, high, bound)))
]

pub wrap_uint_same : (w : Width) (n : ℕ) → n < 2 * half w → wrap_uint w (pos n) ≡ n
unfolding wrap_uint
wrap_uint_same w8 n h = omega (arith, h)
wrap_uint_same w16 n h = omega (arith, h)
wrap_uint_same w32 n h = omega (arith, h)
wrap_uint_same w64 n h = omega (arith, h)

wrap_uint_negative : (w : Width) (n : ℕ) → n < half w → wrap_uint w (negsuc n) ≡ 2 * half w - 1 - n
unfolding wrap_uint
wrap_uint_negative w8 n h = omega (arith, h)
wrap_uint_negative w16 n h = omega (arith, h)
wrap_uint_negative w32 n h = omega (arith, h)
wrap_uint_negative w64 n h = omega (arith, h)

-- A number of the width is written as it is.
pub wrap_int_same : (w : Width) (z : ℤ) → InWidth w z → wrap_int w z ≡ z
unfolding wrap_int
wrap_int_same w (pos n) h = rw (wrap_uint_same w n (omega (arith, h))) (ground (arith, h))
wrap_int_same w (negsuc n) h = rw (wrap_uint_negative w n h) (
    if-rule (λ r. r ≡ negsuc n) (ltb (2 * half w - 1 - n) (half w)) _ _
      (λ low. absurd (ground (arith, low, h))) (λ high. ap minus {y = suc n} (omega (arith, h))))
