-- ===== src/Security/Values.antt =====
-- security/: Go's `interface{}` values, as attributes, claims and conditions hold them.
use microlib.Prelude.{
  ℕ, Bool, true, false, Option, none, some, List, nat_beq, text_beq, if◌then◌else◌,
}
use microlib.Text.{Text}

-- A number is a float64 other than NaN and -0, by its bit pattern. `texts` is a `[]string`.
mutual
  pub data Value : Type 0 where
    null : Value
    bool : Bool → Value
    number : ℕ → Value
    str : Text → Value
    texts : List Text → Value
    array : Items → Value
    object : Fields → Value

  pub data Items : Type 0 where
    nil : Items
    cons : Value → Items → Items

  pub data Fields : Type 0 where
    end : Fields
    field : Text → Value → Fields → Fields

unfoldable pub lookup_field : Text → Fields → Option Value
lookup_field k end = none
lookup_field k (field j v rest) = if text_beq j k then some v else lookup_field k rest

abbrev bool_beq : Bool → Bool → Bool
bool_beq true b = b
bool_beq false true = false
bool_beq false false = true

-- `==` on interfaces: values of different types differ, and two slices or two maps cannot be
-- compared. `none` is that panic.
abbrev pub same : Value → Value → Option Bool
same null null = some true
same (bool a) (bool b) = some (bool_beq a b)
same (number a) (number b) = some (nat_beq a b)
same (str a) (str b) = some (text_beq a b)
same (texts a) (texts b) = none
same (array a) (array b) = none
same (object a) (object b) = none
same _ _ = some false

-- `==` of a string and an interface.
abbrev pub is_text : Text → Value → Bool
is_text s (str t) = text_beq s t
is_text s _ = false
