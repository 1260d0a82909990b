-- ===== src/Config/Container.antt =====
-- config/config.go: Config, the container with an index of the fields' paths.
pub mod Access
pub mod Updates
use microlib.Prelude.{
  ◌>>=◌, ℕ, zero, suc, Bool, true, false, Option, none, some, List, [], ◌∷◌, ◌++◌, map, Dict,
  lookup, insert, text_eq, ◌==◌, is_empty, not, if◌then◌else◌, ◌&&◌, ◌||◌,
}
use microlib.Text.{Text}
use microlib.Config.Values.{
  ConfigFloats, ConfigValue, null, boolean, integer, float, string, texts, array, object, Elements,
  nil, cons, Entries, end, entry, elements, Settings, Width, w8, w16, w32, w64, half, residue,
  wrap_uint, wrap_int, Kind, string_kind, bool_kind, float32_kind, float64_kind, int_kind,
  uint_kind, Scalar, text_scalar, bool_scalar, float32_scalar, float64_scalar, int_scalar,
  uint_scalar, kind_of, zero_scalar, Slot, scalar, slice, struct, Struct, no_field, field, Place,
}
use microlib.Config.Types.{type_of, SlotType-discrete}
use microlib.Config.Convert.{convert}
use microlib.Config.Fields.{read, write}

abbrev field_path : Text → Text → Text
field_path prefix name = if is_empty prefix then name else prefix ++ b'.' ∷ name

-- The paths of the fields from the one of number `i` on, whose place is behind `front`.
unfoldable mutual
  pub index_fields : {N : Type 0} → Struct N → Text → Place → ℕ → Dict Text Place → Dict Text Place
  index_fields no_field prefix front i fields = fields
  index_fields (field name json yaml slot rest) prefix front i fields =
      let path = field_path prefix name in
      let place = front ++ i ∷ [] in
      index_fields rest prefix front (suc i)
        (index_inner slot path place (insert path place fields))

  index_inner : {N : Type 0} → Slot N → Text → Place → Dict Text Place → Dict Text Place
  index_inner (struct inner) path place fields = index_fields inner path place 0 fields
  index_inner _ path place fields = fields

pub record Config (N : Type 0) : Type 0 where
  pub settings : Slot N
  pub fields : Dict Text Place

-- `none` is an error: the data is no struct.
unfoldable pub new_config : {N : Type 0} → Slot N → Option (Config N)
unfolding index_fields
new_config (struct inner) =
    some (record { settings = struct inner; fields = index_fields inner [] [] 0 [] })
new_config _ = none

unfoldable pub get_field : {N : Type 0} → Text → Config N → Option (Slot N)
unfolding lookup read
get_field path c = do place ← lookup path c.fields; read c.settings place

-- `none` is an error: the data is no struct, or one of another type.
unfoldable update_config : {N : Type 0} → Slot N → Config N → Option (Config N)
unfolding index_fields type_of
update_config (struct inner) c =
    elim (SlotType-discrete (type_of (struct inner)) (type_of c.settings)) [
      | yes same ↦ some (record { settings = struct inner; fields = index_fields inner [] [] 0 [] })
      | no other ↦ none
    ]
update_config _ c = none

abbrev as_scalar : {N : Type 0} → Option (Scalar N) → Option (Slot N)
as_scalar none = none
as_scalar (some s) = some (scalar s)

-- The field with a value of an assignable or convertible type, or `none` where the type is neither.
unfoldable pub assign : (F : ConfigFloats) → Slot F.Num → ConfigValue F.Num → Option (Slot F.Num)
unfolding convert
assign F (scalar (text_scalar old)) (string s) = some (scalar (text_scalar s))
assign F (scalar old) value = as_scalar (convert F (kind_of old) value)
assign F (slice string_kind old) (texts ts) = some (slice string_kind (map text_scalar ts))
assign F slot value = none

abbrev pub is_null : {N : Type 0} → ConfigValue N → Bool
is_null null = true
is_null _ = false

unfoldable pub field_at : {N : Type 0} → Text → Config N → Option (Place × Slot N)
unfolding lookup read
field_at path c = do place ← lookup path c.fields; slot ← read c.settings place; some (place, slot)

-- Whether there is no error, and the container, or `none` for a panic: the type of a nil interface
-- is asked for.
unfoldable pub update_field :
    (F : ConfigFloats) → Text → ConfigValue F.Num → Config F.Num → Option (Bool × Config F.Num)
unfolding field_at write assign
update_field F path value c = elim (field_at path c) [
  | none ↦ some (false, c)
  | some (place, slot) ↦ if is_null value then none else elim (assign F slot value) [
    | none ↦ some (false, c)
    | some new ↦ some (true, record c { settings = write c.settings place new })
  ]
]

pub record Injectable (N : Type 0) : Type 0 where
  pub config : Option (Config N)

unfoldable inject_config : {N : Type 0} → Config N → Injectable N → Injectable N
inject_config config i = record i { config = some config }

-- `none` is nil.
unfoldable get_config : {N : Type 0} → Injectable N → Option (Slot N)
get_config i = elim i.config [ none ↦ none | some c ↦ some c.settings ]

unfoldable get_config_field : {N : Type 0} → Text → Injectable N → Option (Slot N)
unfolding get_field
get_config_field path i = elim i.config [ none ↦ none | some c ↦ get_field path c ]
