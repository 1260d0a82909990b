-- ===== src/Config/Values.antt =====
-- config/: the `interface{}` values that the sources load, and the struct that holds a configuration.
use Prim.Native.Nat.{◌%◌}
use microlib.Prelude.{
  ℕ, ◌-◌, ◌*◌, ℤ, pos, negsuc, Bool, false, Option, List, [], ◌∷◌, ltb, Dict, if◌then◌else◌,
}
use microlib.Text.{Text}
use microlib.Text.Numbers.{minus}

-- What the code uses of `float64`: `strconv.ParseFloat`, `Sscanf` with "%f", the conversions, and
-- the rounding to a float32.
pub record ConfigFloats : Type 1 where
  pub Num : Type 0
  pub zero : Num
  pub parse_float : Text → Option Num
  pub scan_float : Text → Option Num
  pub of_int : ℤ → Num
  pub to_int64 : Num → ℤ
  pub to_uint64 : Num → ℕ
  pub to_float32 : Num → Num

-- `texts` is a `[]string`, `array` a `[]interface{}` and `object` a `map[string]interface{}`. An
-- integer is of a signed type; `N` is the floats.
mutual
  pub data ConfigValue (N : Type 0) : Type 0 where
    null : ConfigValue N
    boolean : Bool → ConfigValue N
    integer : ℤ → ConfigValue N
    float : N → ConfigValue N
    string : Text → ConfigValue N
    texts : List Text → ConfigValue N
    array : Elements N → ConfigValue N
    object : Entries N → ConfigValue N

  pub data Elements (N : Type 0) : Type 0 where
    nil : Elements N
    cons : ConfigValue N → Elements N → Elements N

  pub data Entries (N : Type 0) : Type 0 where
    end : Entries N
    entry : Text → ConfigValue N → Entries N → Entries N

abbrev pub elements : {N : Type 0} → Elements N → List (ConfigValue N)
elements nil = []
elements (cons v vs) = v ∷ elements vs

-- What `Load` of a source yields: the values by their keys.
abbrev pub Settings : Type 0 → Type 0
Settings N = Dict Text (ConfigValue N)

-- The widths of the integer types.
pub data Width : Type 0 where
  w8 w16 w32 w64 : Width

abbrev pub half : Width → ℕ
half w8 = 0x80
half w16 = 0x8000
half w32 = 0x8000_0000
half w64 = 0x8000_0000_0000_0000

abbrev pub residue : ℕ → ℤ → ℕ
residue m (pos n) = n % m
residue m (negsuc n) = m - 1 - n % m

-- `SetUint` and `SetInt` on a field of width `w`: the lowest bits.
unfoldable pub wrap_uint : Width → ℤ → ℕ
wrap_uint w z = residue (2 * half w) z

unfoldable pub wrap_int : Width → ℤ → ℤ
unfolding wrap_uint
wrap_int w z = let r = wrap_uint w z in if ltb r (half w) then pos r else minus (2 * half w - r)

-- The types of fields that hold one value.
pub data Kind : Type 0 where
  string_kind bool_kind float32_kind float64_kind : Kind
  int_kind : Width → Kind
  uint_kind : Width → Kind

pub data Scalar (N : Type 0) : Type 0 where
  text_scalar : Text → Scalar N
  bool_scalar : Bool → Scalar N
  float32_scalar : N → Scalar N
  float64_scalar : N → Scalar N
  int_scalar : Width → ℤ → Scalar N
  uint_scalar : Width → ℕ → Scalar N

abbrev pub kind_of : {N : Type 0} → Scalar N → Kind
kind_of (text_scalar s) = string_kind
kind_of (bool_scalar b) = bool_kind
kind_of (float32_scalar x) = float32_kind
kind_of (float64_scalar x) = float64_kind
kind_of (int_scalar w z) = int_kind w
kind_of (uint_scalar w n) = uint_kind w

-- The zero value of a type.
abbrev pub zero_scalar : (F : ConfigFloats) → Kind → Scalar F.Num
zero_scalar F string_kind = text_scalar []
zero_scalar F bool_kind = bool_scalar false
zero_scalar F float32_kind = float32_scalar F.zero
zero_scalar F float64_kind = float64_scalar F.zero
zero_scalar F (int_kind w) = int_scalar w (pos 0)
zero_scalar F (uint_kind w) = uint_scalar w 0

-- A struct: fields with a name and the names that the tags `json` and `yaml` give, which are empty
-- where there is none. All fields are exported.
mutual
  pub data Slot (N : Type 0) : Type 0 where
    scalar : Scalar N → Slot N
    slice : Kind → List (Scalar N) → Slot N
    struct : Struct N → Slot N

  pub data Struct (N : Type 0) : Type 0 where
    no_field : Struct N
    field : Text → Text → Text → Slot N → Struct N → Struct N

-- The place of a field: the number of the field at each level, from the outside in.
abbrev pub Place : Type 0
Place = List ℕ
