-- ===== src/Text/Parts.antt =====
-- Package `strings`: cutting, trimming, joining and case.
use microlib.Prelude.{
  ℕ, ◌+◌, Bool, true, false, Option, none, some, List, [], ◌∷◌, ◌++◌, length, drop, leb, nat_beq,
  text_beq, is_empty, any, ◌&&◌, ◌||◌, if◌then◌else◌, map,
}
use microlib.Text.{Text, has_prefix}

-- `unicode.IsSpace`.
unfoldable pub is_space : ℕ → Bool
is_space c =
    (leb 9 c && leb c 13)
    || any (nat_beq c) (32 ∷ 0x85 ∷ 0xa0 ∷ 0x1680 ∷ 0x2028 ∷ 0x2029 ∷ 0x202f ∷ 0x205f ∷ 0x3000 ∷ [])
    || (leb 0x2000 c && leb c 0x200a)

unfoldable pub trim_left : Text → Text
unfolding is_space
trim_left [] = []
trim_left (c ∷ s) = let rest = trim_left s in if is_space c then rest else c ∷ s

unfoldable pub trim_right : Text → Text
unfolding is_space
trim_right [] = []
trim_right (c ∷ s) = let rest = trim_right s in if is_empty rest && is_space c then [] else c ∷ rest

unfoldable pub trim_space : Text → Text
unfolding trim_left trim_right
trim_space s = trim_right (trim_left s)

abbrev pub put_before : ℕ → Option (Text × Text) → Option (Text × Text)
put_before c none = none
put_before c (some (front, rest)) = some (c ∷ front, rest)

-- `strings.SplitN(s, separator, 2)`: what is before and behind the first separator, or `none` if
-- there is none. The separator is not empty.
unfoldable pub cut : Text → Text → Option (Text × Text)
unfolding has_prefix
cut separator [] = none
cut separator (c ∷ s) =
    let rest = cut separator s in
    if has_prefix (c ∷ s) separator
    then some ([], drop (length separator) (c ∷ s))
    else put_before c rest

-- `strings.Contains`, for a text that is not empty.
unfoldable pub contains_text : Text → Text → Bool
unfolding has_prefix
contains_text part [] = false
contains_text part (c ∷ s) =
    let rest = contains_text part s in if has_prefix (c ∷ s) part then true else rest

-- `strings.Join`.
unfoldable pub join : Text → List Text → Text
join separator [] = []
join separator (part ∷ []) = part
join separator (part ∷ next ∷ parts) = part ++ (separator ++ join separator (next ∷ parts))

-- `strings.ToLower` and the fold of `strings.EqualFold` on a character. Outside ASCII the first is
-- the identity here, and the second knows the two characters that fold to an ASCII letter.
abbrev lower : ℕ → ℕ
lower c = if leb b'A' c && leb c b'Z' then c + 32 else c

abbrev fold : ℕ → ℕ
fold c = if nat_beq c 0x17f then b's' else if nat_beq c 0x212a then b'k' else lower c

unfoldable pub to_lower : Text → Text
to_lower = map lower

unfoldable pub equal_fold : Text → Text → Bool
equal_fold s t = text_beq (map fold s) (map fold t)

-- `strings.Replace(s, old, new, -1)` for single characters.
unfoldable pub replace : ℕ → ℕ → Text → Text
replace old new = map (λ c. if nat_beq c old then new else c)
