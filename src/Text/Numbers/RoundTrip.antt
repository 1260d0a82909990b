-- ===== src/Text/Numbers/RoundTrip.antt =====
-- Numbers that are printed and read again.
use Prim.Native.Nat.{◌/◌, ◌%◌}
use microlib.Prelude.{
  ℕ, zero, suc, ◌+◌, ◌-◌, ◌*◌, ◌≤◌, ◌<◌, ◌≡◌, refl, ap, ◌∙◌, pos, Bool, true, false, some, [], ◌∷◌,
  ◌++◌, all, is_empty, ltb, arith, if◌then◌else◌, inl, inr, Bool-cases,
}
use microlib.Text.{Text}
use microlib.Text.Numbers.{
  is_digit, digits_value, leading_digits, max_int64, show_digits, show, scan_int, parse_int,
}

-- Not one more digit at the start.
abbrev pub starts_without_digit : Text → Bool
starts_without_digit [] = true
starts_without_digit (c ∷ s) = if is_digit c then false else true

digits_value-show_digits :
    (fuel n : ℕ) (s : Text) → n < fuel → digits_value 0 (show_digits fuel n s) ≡ digits_value n s
unfolding digits_value show_digits
digits_value-show_digits zero n s h = elim h [ ]
digits_value-show_digits (suc fuel) n s h = elim (Bool-cases (ltb n 10)) [
  | inl last ↦ rw last (ap (λ k. digits_value k s) (omega arith))
  | inr more ↦
      let e : 10 * (n / 10) + (48 + n % 10 - 48) ≡ n = omega arith in
      rw more (
        digits_value-show_digits fuel (n / 10) ((48 + n % 10) ∷ s) (ground arith)
        ∙ ap (λ k. digits_value k s) e)
]

digits_value-show : (n : ℕ) → digits_value 0 (show n) ≡ n
unfolding digits_value show
digits_value-show n = digits_value-show_digits (n + 1) n [] (omega arith)

all_digits-show_digits :
    (fuel n : ℕ) (s : Text) → all is_digit s ≡ true → all is_digit (show_digits fuel n s) ≡ true
unfolding show_digits
all_digits-show_digits zero n s h = h
all_digits-show_digits (suc fuel) n s h = elim (Bool-cases (ltb n 10)) [
  | inl last ↦ rw last (ground arith)
  | inr more ↦ rw more (all_digits-show_digits fuel (n / 10) ((48 + n % 10) ∷ s) (ground arith))
]

pub all_digits-show : (n : ℕ) → all is_digit (show n) ≡ true
unfolding show
all_digits-show n = all_digits-show_digits (n + 1) n [] refl

filled-show_digits :
    (fuel n : ℕ) (s : Text) → is_empty s ≡ false → is_empty (show_digits fuel n s) ≡ false
unfolding show_digits
filled-show_digits zero n s h = h
filled-show_digits (suc fuel) n s h =
    ground (arith, filled-show_digits fuel (n / 10) ((48 + n % 10) ∷ s) refl)

filled-show : (n : ℕ) → is_empty (show n) ≡ false
unfolding show show_digits
filled-show n = ground (arith, filled-show_digits n (n / 10) ((48 + n % 10) ∷ []) refl)

leading_digits-append :
    (s rest : Text)
    → all is_digit s ≡ true
    → starts_without_digit rest ≡ true
    → leading_digits (s ++ rest) ≡ s
unfolding leading_digits
leading_digits-append [] [] h k = refl
leading_digits-append [] (c ∷ rest) h k = ground arith
leading_digits-append (c ∷ s) rest h k = ground (arith, leading_digits-append s rest)

-- Digits are read up to the first character that is none, whatever follows.
scan-digits :
    (s rest : Text)
    → is_empty s ≡ false
    → all is_digit s ≡ true
    → starts_without_digit rest ≡ true
    → digits_value 0 s ≤ max_int64
    → scan_int (s ++ rest) ≡ some (pos (digits_value 0 s))
unfolding scan_int
scan-digits [] rest h d k small = cc
scan-digits (c ∷ s) rest h d k small =
    let e = leading_digits-append (c ∷ s) rest d k in ground (arith, e)

pub scan-show :
    (n : ℕ) (rest : Text)
    → starts_without_digit rest ≡ true
    → n ≤ max_int64
    → scan_int (show n ++ rest) ≡ some (pos n)
scan-show n rest k small =
    scan-digits (show n) rest (filled-show n) (all_digits-show n) k (rw (digits_value-show n) small)
    ∙ ap (λ v. some (pos v)) (digits_value-show n)

parse-digits :
    (s : Text)
    → is_empty s ≡ false
    → all is_digit s ≡ true
    → digits_value 0 s ≤ max_int64
    → parse_int s ≡ some (pos (digits_value 0 s))
unfolding parse_int
parse-digits [] h d small = cc
parse-digits (c ∷ s) h d small = ground arith
