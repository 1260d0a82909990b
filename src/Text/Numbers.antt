-- ===== src/Text/Numbers.antt =====
-- Packages `strconv` and `fmt`: numbers in decimal digits.
pub mod RoundTrip
use Prim.Native.Nat.{◌/◌, ◌%◌}
use microlib.Prelude.{
  ℕ, zero, suc, ◌+◌, ◌-◌, ◌*◌, ℤ, pos, negsuc, Bool, true, false, not, Option, none, some, List, [],
  ◌∷◌, ◌++◌, length, leb, ltb, nat_beq, is_empty, any, all, ◌&&◌, ◌||◌, if◌then◌else◌, String,
  text_beq, map,
}
use microlib.Text.{Text, text}
use microlib.Text.Parts.{is_space}

abbrev pub is_digit : ℕ → Bool
is_digit c = leb b'0' c && leb c b'9'

-- The number with the digits of `s` behind those of `n`.
unfoldable pub digits_value : ℕ → Text → ℕ
digits_value n [] = n
digits_value n (c ∷ s) = digits_value (10 * n + (c - 48)) s

unfoldable pub leading_digits : Text → Text
leading_digits [] = []
leading_digits (c ∷ s) = let rest = leading_digits s in if is_digit c then c ∷ rest else []

-- The integers of 64 bits.
abbrev pub max_int64 : ℕ
max_int64 = 9_223_372_036_854_775_807

abbrev max_uint64 : ℕ
max_uint64 = 18_446_744_073_709_551_615

-- -n.
abbrev pub minus : ℕ → ℤ
minus zero = pos 0
minus (suc n) = negsuc n

abbrev pub positive : Text → Option ℤ
positive digits =
    let n = digits_value 0 digits in
    if is_empty digits || ltb max_int64 n then none else some (pos n)

abbrev negative : Text → Option ℤ
negative digits =
    let n = digits_value 0 digits in
    if is_empty digits || ltb (max_int64 + 1) n then none else some (minus n)

-- The number behind an optional sign, where `part` says which of the text is digits.
abbrev pub signed : (Text → Text) → Text → Option ℤ
signed part [] = none
signed part (c ∷ s) =
    if nat_beq c b'-'
    then negative (part s)
    else if nat_beq c b'+'
    then positive (part s)
    else positive (part (c ∷ s))

-- All of the text, if it is digits.
abbrev all_digits : Text → Text
all_digits s = if all is_digit s then s else []

-- `strconv.ParseInt(s, 10, 64)`, and `strconv.Atoi`.
unfoldable pub parse_int : Text → Option ℤ
unfolding digits_value
parse_int = signed all_digits

-- `strconv.ParseUint(s, 10, 64)`.
unfoldable pub parse_uint : Text → Option ℕ
unfolding digits_value
parse_uint s =
    let n = digits_value 0 s in
    if is_empty s || not (all is_digit s) || ltb max_uint64 n then none else some n

-- `fmt.Sscanf(s, "%d", &result)`: spaces, but no end of line, then an optional sign and the digits
-- that follow; what is behind them is not read.
unfoldable pub scan_int : Text → Option ℤ
unfolding is_space digits_value leading_digits
scan_int [] = none
scan_int (c ∷ s) =
    let rest = scan_int s in
    if nat_beq c 10 then none else if is_space c then rest else signed leading_digits (c ∷ s)

-- `strconv.ParseBool`.
unfoldable pub parse_bool : Text → Option Bool
parse_bool s =
    if any (text_beq s) (map text ("1" ∷ "t" ∷ "T" ∷ "TRUE" ∷ "true" ∷ "True" ∷ []))
    then some true
    else if any (text_beq s) (map text ("0" ∷ "f" ∷ "F" ∷ "FALSE" ∷ "false" ∷ "False" ∷ []))
    then some false
    else none

-- The digits of `n` before those of `s`. With `fuel` above `n` there is enough of it.
unfoldable pub show_digits : ℕ → ℕ → Text → Text
show_digits zero n s = s
show_digits (suc fuel) n s =
    let more = show_digits fuel (n / 10) ((48 + n % 10) ∷ s) in
    if ltb n 10 then (48 + n) ∷ s else more

-- `%d` of `fmt.Sprintf`, for a number that is not negative.
unfoldable pub show : ℕ → Text
unfolding show_digits
show n = show_digits (n + 1) n []
