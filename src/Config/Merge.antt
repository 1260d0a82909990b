-- ===== src/Config/Merge.antt =====
-- config/manager.go: the merge of the sources' settings in Load, and mergeConfig. The ranges over
-- the maps follow the order of the list, which is any order.
pub mod Typing
pub mod Indices
pub mod Keeping
use microlib.Prelude.{
  ◌>>=◌, ℕ, zero, suc, Bool, true, false, Option, none, some, List, [], ◌∷◌, ◌++◌, map, Dict,
  lookup, insert, text_eq, nat_beq, ltb, sort, if◌then◌else◌, ◌&&◌, ◌||◌,
}
use microlib.Text.{Text, split}
use microlib.Text.Parts.{join}
use microlib.Text.Numbers.{parse_int}
use microlib.Config.Values.{
  ConfigFloats, ConfigValue, null, boolean, integer, float, string, texts, array, object, Elements,
  nil, cons, Entries, end, entry, elements, Settings, Width, w8, w16, w32, w64, half, residue,
  wrap_uint, wrap_int, Kind, string_kind, bool_kind, float32_kind, float64_kind, int_kind,
  uint_kind, Scalar, text_scalar, bool_scalar, float32_scalar, float64_scalar, int_scalar,
  uint_scalar, kind_of, zero_scalar, Slot, scalar, slice, struct, Struct, no_field, field, Place,
}
use microlib.Config.Convert.{set_field_value, set_slice_value}
use microlib.Config.Fields.{find_field, read, write}

-- Settings of one source below those that are there.
unfoldable pub merge_missing : {N : Type 0} → Settings N → Settings N → Settings N
unfolding lookup insert
merge_missing merged [] = merged
merge_missing merged ((k, v) ∷ settings) = elim (lookup k merged) [
  | none ↦ merge_missing (insert k v merged) settings
  | some w ↦ merge_missing merged settings
]

-- A key that ends in an index, as its base and the index.
abbrev last_split : List Text → Option (List Text × Text)
last_split [] = none
last_split (part ∷ []) = some ([], part)
last_split (part ∷ next ∷ parts) = elim (last_split (next ∷ parts)) [
  | none ↦ none
  | some (front, last) ↦ some (part ∷ front, last)
]

-- The key without its last part, if it has two or more and the last is an integer.
unfoldable pub array_base : Text → Option Text
unfolding split parse_int join
array_base key = elim (last_split (split b'.' key)) [
  | none ↦ none
  | some ([], last) ↦ none
  | some (part ∷ front, last) ↦ elim (parse_int last) [
    | none ↦ none
    | some i ↦ some (join (b'.' ∷ []) (part ∷ front))
  ]
]

abbrev keys_of : Text → Dict Text (List Text) → List Text
keys_of base m = elim (lookup base m) [ none ↦ [] | some keys ↦ keys ]

-- The keys of each array.
unfoldable pub array_keys :
    {N : Type 0} → Settings N → Dict Text (List Text) → Dict Text (List Text)
unfolding array_base lookup insert
array_keys [] found = found
array_keys ((key, v) ∷ settings) found = elim (array_base key) [
  | none ↦ array_keys settings found
  | some base ↦ array_keys settings (insert base (keys_of base found ++ key ∷ []) found)
]

-- The order of `sort.Strings`.
unfoldable pub text_before : Text → Text → Bool
text_before [] [] = false
text_before [] (y ∷ t) = true
text_before (x ∷ s) [] = false
text_before (x ∷ s) (y ∷ t) = ltb x y || (nat_beq x y && text_before s t)

abbrev pub value_at : {N : Type 0} → Settings N → Text → ConfigValue N
value_at settings key = elim (lookup key settings) [ none ↦ null | some v ↦ v ]

module _ (F : ConfigFloats) where
  -- Writes what `change` makes of the field at the key, or is `none` where there is no such field or
  -- `change` fails.
  unfoldable pub changed_field :
      Text → (Slot F.Num → Option (Slot F.Num)) → Slot F.Num → Option (Slot F.Num)
  unfolding split find_field read write
  changed_field key change dest = do
    place ← find_field dest (split b'.' key)
    slot ← read dest place
    new ← change slot
    some (write dest place new)

  unfoldable pub update_key : Text → (Slot F.Num → Option (Slot F.Num)) → Slot F.Num → Slot F.Num
  unfolding changed_field
  update_key key change dest = elim (changed_field key change dest) [
    | none ↦ dest
    | some dest' ↦ dest'
  ]

  unfoldable pub set_arrays : Settings F.Num → Dict Text (List Text) → Slot F.Num → Slot F.Num
  unfolding update_key set_slice_value lookup sort text_before
  set_arrays settings [] dest = dest
  set_arrays settings ((base, keys) ∷ arrays) dest =
      let values = map (value_at settings) (sort text_before keys) in
      set_arrays settings arrays (update_key base (λ slot. set_slice_value F slot values) dest)

  -- The keys that are no indices and no bases of those.
  unfoldable pub set_regular : Settings F.Num → Dict Text (List Text) → Slot F.Num → Slot F.Num
  unfolding array_base lookup update_key set_field_value
  set_regular [] arrays dest = dest
  set_regular ((key, value) ∷ settings) arrays dest = elim (array_base key) [
    | some base ↦ set_regular settings arrays dest
    | none ↦ elim (lookup key arrays) [
      | some keys ↦ set_regular settings arrays dest
      | none ↦
          set_regular settings arrays (update_key key (λ slot. set_field_value F slot value) dest)
    ]
  ]

  unfoldable pub merge_config : Settings F.Num → Slot F.Num → Slot F.Num
  unfolding array_keys set_arrays set_regular
  merge_config settings dest =
      let arrays = array_keys settings [] in
      set_regular settings arrays (set_arrays settings arrays dest)
