-- ===== src/Config/Convert.antt =====
-- config/manager.go: the conversions in setFieldValue and setSliceValue, by package `reflect`.
use microlib.Prelude.{
  ◌>>=◌, ℤ, pos, negsuc, Bool, Option, none, some, List, [], ◌∷◌, leb, map, if◌then◌else◌, ◌&&◌,
  ◌||◌,
}
use microlib.Text.{Text, split}
use microlib.Text.Parts.{trim_space}
use microlib.Text.Numbers.{parse_int, parse_uint, parse_bool}
use microlib.Config.Values.{
  ConfigFloats, ConfigValue, null, boolean, integer, float, string, texts, array, Elements, nil,
  cons, wrap_uint, wrap_int, Kind, string_kind, bool_kind, float32_kind, float64_kind, int_kind,
  uint_kind, Scalar, text_scalar, bool_scalar, float32_scalar, float64_scalar, int_scalar,
  uint_scalar, kind_of, zero_scalar, Slot, scalar, slice, struct,
}

-- The conversion of an integer to a string: the character of that code point, if there is one.
unfoldable pub rune_text : ℤ → Text
rune_text (negsuc n) = 0xfffd ∷ []
rune_text (pos n) = if leb n 0xd7ff || (leb 0xe000 n && leb n 0x10ffff) then n ∷ [] else 0xfffd ∷ []

module _ (F : ConfigFloats) where
  -- A string to a field's type, and `none` for an error.
  unfoldable pub parse_scalar : Kind → Text → Option (Scalar F.Num)
  unfolding parse_int parse_uint parse_bool wrap_uint wrap_int
  parse_scalar string_kind s = some (text_scalar s)
  parse_scalar (int_kind w) s = elim (parse_int s) [
    | none ↦ none
    | some z ↦ some (int_scalar w (wrap_int w z))
  ]
  parse_scalar (uint_kind w) s = elim (parse_uint s) [
    | none ↦ none
    | some n ↦ some (uint_scalar w (wrap_uint w (pos n)))
  ]
  parse_scalar float32_kind s = elim (F.parse_float s) [
    | none ↦ none
    | some x ↦ some (float32_scalar (F.to_float32 x))
  ]
  parse_scalar float64_kind s = elim (F.parse_float s) [
    | none ↦ none
    | some x ↦ some (float64_scalar x)
  ]
  parse_scalar bool_kind s = elim (parse_bool s) [ none ↦ none | some b ↦ some (bool_scalar b) ]

  unfoldable pub convert_integer : Kind → ℤ → Option (Scalar F.Num)
  unfolding rune_text wrap_uint wrap_int
  convert_integer string_kind z = some (text_scalar (rune_text z))
  convert_integer (int_kind w) z = some (int_scalar w (wrap_int w z))
  convert_integer (uint_kind w) z = some (uint_scalar w (wrap_uint w z))
  convert_integer float32_kind z = some (float32_scalar (F.to_float32 (F.of_int z)))
  convert_integer float64_kind z = some (float64_scalar (F.of_int z))
  convert_integer bool_kind z = none

  unfoldable pub convert_float : Kind → F.Num → Option (Scalar F.Num)
  unfolding wrap_uint wrap_int
  convert_float (int_kind w) x = some (int_scalar w (wrap_int w (F.to_int64 x)))
  convert_float (uint_kind w) x = some (uint_scalar w (wrap_uint w (pos (F.to_uint64 x))))
  convert_float float32_kind x = some (float32_scalar (F.to_float32 x))
  convert_float float64_kind x = some (float64_scalar x)
  convert_float string_kind x = none
  convert_float bool_kind x = none

  abbrev pub convert_bool : Kind → Bool → Option (Scalar F.Num)
  convert_bool bool_kind b = some (bool_scalar b)
  convert_bool _ b = none

  -- A value that is no string, by assignment or by `Convert`.
  unfoldable pub convert : Kind → ConfigValue F.Num → Option (Scalar F.Num)
  unfolding convert_integer convert_float
  convert k (boolean b) = convert_bool k b
  convert k (integer z) = convert_integer k z
  convert k (float x) = convert_float k x
  convert k _ = none

  -- One element of a slice: `null` leaves the zero value.
  unfoldable pub set_element : Kind → ConfigValue F.Num → Option (Scalar F.Num)
  unfolding parse_scalar convert
  set_element k null = some (zero_scalar F k)
  set_element k (string s) = parse_scalar k s
  set_element k v = convert k v

  unfoldable pub set_elements : Kind → List (ConfigValue F.Num) → Option (List (Scalar F.Num))
  unfolding set_element
  set_elements k [] = some []
  set_elements k (v ∷ vs) = do s ← set_element k v; rest ← set_elements k vs; some (s ∷ rest)

  -- `none` is an error, which leaves the field as it is.
  unfoldable pub set_slice_value : Slot F.Num → List (ConfigValue F.Num) → Option (Slot F.Num)
  unfolding set_elements
  set_slice_value (slice k old) values = elim (set_elements k values) [
    | none ↦ none
    | some new ↦ some (slice k new)
  ]
  set_slice_value _ values = none

  -- Elements of a `[]string`, which convert to strings only.
  abbrev pub set_texts : Kind → List Text → Option (Slot F.Num)
  set_texts k [] = some (slice k [])
  set_texts string_kind (t ∷ ts) = some (slice string_kind (map text_scalar (t ∷ ts)))
  set_texts _ (t ∷ ts) = none

  -- The element type of a `[]interface{}` converts to none of the kinds.
  abbrev pub set_array : Kind → Elements F.Num → Option (Slot F.Num)
  set_array k nil = some (slice k [])
  set_array k (cons v vs) = none

  -- The branches for a string.
  abbrev pub set_from_string : Slot F.Num → Text → Option (Slot F.Num)
  set_from_string (scalar old) s = elim (parse_scalar (kind_of old) s) [
    | none ↦ none
    | some new ↦ some (scalar new)
  ]
  set_from_string (slice string_kind old) s =
      some (slice string_kind (map (λ part. text_scalar (trim_space part)) (split b',' s)))
  set_from_string (slice _ old) s = none
  set_from_string (struct fields) s = none

  unfoldable pub set_field_value : Slot F.Num → ConfigValue F.Num → Option (Slot F.Num)
  unfolding parse_scalar convert split trim_space
  set_field_value slot null = some slot
  set_field_value slot (string s) = set_from_string slot s
  set_field_value (slice k old) (texts ts) = set_texts k ts
  set_field_value (slice k old) (array vs) = set_array k vs
  set_field_value (slice k old) _ = none
  set_field_value (scalar old) v = elim (convert (kind_of old) v) [
    | none ↦ none
    | some new ↦ some (scalar new)
  ]
  set_field_value (struct fields) v = none
