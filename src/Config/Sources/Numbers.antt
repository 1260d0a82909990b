-- ===== src/Config/Sources/Numbers.antt =====
-- config/source.go, config/manager.go: what a variable or a flag of digits becomes in a field.
use mathlib.Core.List.{append-nil}
use microlib.Prelude.{ℕ, ◌≤◌, ◌<◌, ℤ, pos, true, some, [], ◌++◌, ◌≡◌, refl, subst, arith}
use microlib.Text.{Text}
use microlib.Text.Numbers.{show, max_int64}
use microlib.Text.Numbers.RoundTrip.{starts_without_digit, scan-show}
use microlib.Config.Values.{
  ConfigFloats, integer, Width, w8, w16, w32, w64, half, text_scalar, int_scalar, uint_scalar,
  scalar,
}
use microlib.Config.Types.Widths.{wrap_int_same, wrap_uint_same}
use microlib.Config.Convert.{rune_text, set_field_value, convert, convert_integer}
use microlib.Config.Sources.{parse_number}

below_max : (w : Width) (n : ℕ) → n < half w → n ≤ max_int64
below_max w8 n h = omega (arith, h)
below_max w16 n h = omega (arith, h)
below_max w32 n h = omega (arith, h)
below_max w64 n h = omega (arith, h)

module _ (F : ConfigFloats) where
  -- The decimal digits of a number that an int64 holds are read as that number, and whatever follows
  -- them is dropped, if it does not start with a digit.
  pub parse_number-show :
      (n : ℕ) (rest : Text)
      → n ≤ max_int64
      → starts_without_digit rest ≡ true
      → parse_number F (show n ++ rest) ≡ integer (pos n)
  unfolding parse_number
  parse_number-show n rest bound plain = rw (parse_number, scan-show n rest plain bound) refl

  number-show : (n : ℕ) → n ≤ max_int64 → parse_number F (show n) ≡ integer (pos n)
  number-show n h =
      subst (λ t. parse_number F t ≡ integer (pos n)) (append-nil (show n))
        (parse_number-show n [] h refl)

  -- A number within the width of a field is written to it as it is.
  pub set_field_value-parse_number :
      (w : Width) (old n : ℕ) (old' : ℤ)
      → n < half w
      → (set_field_value F (scalar (int_scalar w old')) (parse_number F (show n))
          ≡ some (scalar (int_scalar w (pos n))))
        × (set_field_value F (scalar (uint_scalar w old)) (parse_number F (show n))
            ≡ some (scalar (uint_scalar w n)))
  unfolding set_field_value convert convert_integer
  set_field_value-parse_number w old n old' h =
      let read = number-show n (below_max w n h) in
      rw (read, wrap_int_same w (pos n) h, wrap_uint_same w n (omega (arith, h))) (refl, refl)

  -- A string field gets the character whose code point the digits are, not the digits.
  pub set_string-parse_number :
      (old : Text) (n : ℕ)
      → n ≤ max_int64
      → set_field_value F (scalar (text_scalar old)) (parse_number F (show n))
        ≡ some (scalar (text_scalar (rune_text (pos n))))
  unfolding set_field_value convert convert_integer
  set_string-parse_number old n h = rw (number-show n h) refl
