-- ===== src/Config/Types.antt =====
-- config/: the types of the fields of a struct. A struct's type is its fields, with their names, tags
-- and types.
pub mod Widths
use microlib.Prelude.{
  ℕ, ◌*◌, ℤ, pos, negsuc, Bool, true, false, List, [], ◌∷◌, nat_beq, text_beq, text_beq_iff,
  Comparable, if◌then◌else◌, ◌&&◌, ◌≡◌, refl, ◌↔◌, arith, All, ◌<◌,
}
use native.Mathlib.Decide.{ℕ_discrete}
use microlib.Text.{Text}
use microlib.Config.Values.{
  Width, w8, w16, w32, w64, half, Kind, string_kind, bool_kind, float32_kind, float64_kind,
  int_kind, uint_kind, Scalar, text_scalar, bool_scalar, float32_scalar, float64_scalar, int_scalar,
  uint_scalar, kind_of, Slot, scalar, slice, struct, Struct, no_field, field,
}

mutual
  pub data SlotType : Type 0 where
    scalar_type slice_type : Kind → SlotType
    struct_type : StructType → SlotType

  pub data StructType : Type 0 where
    no_field_type : StructType
    field_type : Text → Text → Text → SlotType → StructType → StructType

unfoldable mutual
  pub type_of : {N : Type 0} → Slot N → SlotType
  type_of (scalar s) = scalar_type (kind_of s)
  type_of (slice k values) = slice_type k
  type_of (struct fields) = struct_type (type_of_struct fields)

  pub type_of_struct : {N : Type 0} → Struct N → StructType
  type_of_struct no_field = no_field_type
  type_of_struct (field name json yaml slot rest) =
      field_type name json yaml (type_of slot) (type_of_struct rest)

pub SlotType-discrete : Discrete SlotType
SlotType-discrete = hlevel (ℕ_discrete)

-- The signed numbers of a width.
abbrev pub InWidth : Width → ℤ → Type 0
InWidth w (pos n) = n < half w
InWidth w (negsuc n) = n < half w

abbrev pub Fits : {N : Type 0} → Scalar N → Type 0
Fits (int_scalar w z) = InWidth w z
Fits (uint_scalar w n) = n < 2 * half w
Fits _ = Unit

abbrev pub IsTypedScalar : {N : Type 0} → Kind → Scalar N → Type 0
IsTypedScalar k s = (kind_of s ≡ k) × Fits s

-- Every number fits its field's width, and the elements of a slice are of the element type.
abbrev mutual
  pub IsTyped : {N : Type 0} → Slot N → Type 0
  IsTyped (scalar s) = Fits s
  IsTyped (slice k values) = All (IsTypedScalar k) values
  IsTyped (struct fields) = IsTypedStruct fields

  pub IsTypedStruct : {N : Type 0} → Struct N → Type 0
  IsTypedStruct no_field = Unit
  IsTypedStruct (field name json yaml slot rest) = IsTyped slot × IsTypedStruct rest
