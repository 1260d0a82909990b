-- ===== src/Config/Merge/Typing.antt =====
-- config/manager.go: what is written to a field is of the field's type.
use microlib.Prelude.{
  ◌>>=◌, ◌*◌, ◌<◌, ℤ, pos, Bool, Option, none, some, List, [], ◌∷◌, map, text_eq, All, ◌≡◌, refl,
  ap, arith,
}
use microlib.Text.{Text, split}
use microlib.Text.Numbers.{parse_int, parse_uint, parse_bool}
use microlib.Text.Parts.{trim_space}
use microlib.Config.Values.{
  ConfigFloats, ConfigValue, null, boolean, integer, float, string, texts, array, object, nil, cons,
  Width, w8, w16, w32, w64, half, Kind, string_kind, bool_kind, float32_kind, float64_kind,
  int_kind, uint_kind, Scalar, text_scalar, kind_of, Slot, scalar, slice, struct,
}
use microlib.Config.Types.{scalar_type, type_of, IsTypedScalar, IsTyped}
use microlib.Config.Types.Widths.{wrap_uint-lt, wrap_int-InWidth}
use microlib.Config.Convert.{
  parse_scalar, convert_integer, convert_float, convert_bool, convert, set_element, set_elements,
  set_slice_value, set_texts, set_from_string, set_field_value,
}

-- What holds of a result that is no error.
abbrev pub OnSome : {A : Type 0} → (A → Type 0) → Option A → Type 0
OnSome P none = Unit
OnSome P (some a) = P a

pub OnSome_apply :
    {A : Type 0} (P : A → Type 0) (o : Option A) (a : A) → OnSome P o → o ≡ some a → P a
OnSome_apply P o a p h = rw h at p

on_some :
    {A B : Type 0} (P : B → Type 0) (f : A → B) (o : Option A)
    → ((a : A) → P (f a))
    → OnSome P (elim o [ none ↦ none | some a ↦ some (f a) ])
on_some P f none h = tt
on_some P f (some a) h = h a

OnSome-if :
    {A B : Type 0} (P : A → Type 0) (Q : B → Type 0) (f : A → B) (o : Option A)
    → ((a : A) → P a → Q (f a))
    → OnSome P o
    → OnSome Q (elim o [ none ↦ none | some a ↦ some (f a) ])
OnSome-if P Q f none h p = tt
OnSome-if P Q f (some a) h p = h a p

on_both :
    {A B C : Type 0} (P : A → Type 0) (Q : B → Type 0) (R : C → Type 0) (f : A → B → C)
    (o : Option A) (o' : Option B)
    → ((a : A) (b : B) → P a → Q b → R (f a b))
    → OnSome P o
    → OnSome Q o'
    → OnSome R (o >>= λ a. o' >>= λ b. some (f a b))
on_both P Q R f none o' h p q = tt
on_both P Q R f (some a) none h p q = tt
on_both P Q R f (some a) (some b) h p q = h a b p q

pub zero_lt_half : (w : Width) → 0 < half w
zero_lt_half w8 = omega arith
zero_lt_half w16 = omega arith
zero_lt_half w32 = omega arith
zero_lt_half w64 = omega arith

pub zero_lt_double : (w : Width) → 0 < 2 * half w
zero_lt_double w = omega (arith, zero_lt_half w)

-- The new field is of the type of the old, and its numbers fit.
abbrev pub Keeps : {N : Type 0} → Slot N → Slot N → Type 0
Keeps slot new = (type_of new ≡ type_of slot) × IsTyped new

module _ (F : ConfigFloats) where
  parse_scalar-IsTyped : (k : Kind) (s : Text) → OnSome (IsTypedScalar k) (parse_scalar F k s)
  unfolding parse_scalar
  parse_scalar-IsTyped string_kind s = (refl, tt)
  parse_scalar-IsTyped (int_kind w) s =
      on_some (IsTypedScalar (int_kind w)) _ (parse_int s) (λ z. (refl, wrap_int-InWidth w z))
  parse_scalar-IsTyped (uint_kind w) s =
      on_some (IsTypedScalar (uint_kind w)) _ (parse_uint s) (λ n. (refl, wrap_uint-lt w (pos n)))
  parse_scalar-IsTyped float32_kind s =
      on_some (IsTypedScalar float32_kind) _ (F.parse_float s) (λ x. (refl, tt))
  parse_scalar-IsTyped float64_kind s =
      on_some (IsTypedScalar float64_kind) _ (F.parse_float s) (λ x. (refl, tt))
  parse_scalar-IsTyped bool_kind s =
      on_some (IsTypedScalar bool_kind) _ (parse_bool s) (λ b. (refl, tt))

  convert_integer-IsTyped : (k : Kind) (z : ℤ) → OnSome (IsTypedScalar k) (convert_integer F k z)
  unfolding convert_integer
  convert_integer-IsTyped string_kind z = (refl, tt)
  convert_integer-IsTyped (int_kind w) z = (refl, wrap_int-InWidth w z)
  convert_integer-IsTyped (uint_kind w) z = (refl, wrap_uint-lt w z)
  convert_integer-IsTyped float32_kind z = (refl, tt)
  convert_integer-IsTyped float64_kind z = (refl, tt)
  convert_integer-IsTyped bool_kind z = tt

  convert_float-IsTyped : (k : Kind) (x : F.Num) → OnSome (IsTypedScalar k) (convert_float F k x)
  unfolding convert_float
  convert_float-IsTyped string_kind x = tt
  convert_float-IsTyped (int_kind w) x = (refl, wrap_int-InWidth w (F.to_int64 x))
  convert_float-IsTyped (uint_kind w) x = (refl, wrap_uint-lt w (pos (F.to_uint64 x)))
  convert_float-IsTyped float32_kind x = (refl, tt)
  convert_float-IsTyped float64_kind x = (refl, tt)
  convert_float-IsTyped bool_kind x = tt

  convert_bool-IsTyped : (k : Kind) (b : Bool) → OnSome (IsTypedScalar k) (convert_bool F k b)
  convert_bool-IsTyped string_kind b = tt
  convert_bool-IsTyped (int_kind w) b = tt
  convert_bool-IsTyped (uint_kind w) b = tt
  convert_bool-IsTyped float32_kind b = tt
  convert_bool-IsTyped float64_kind b = tt
  convert_bool-IsTyped bool_kind b = (refl, tt)

  convert-IsTyped : (k : Kind) (v : ConfigValue F.Num) → OnSome (IsTypedScalar k) (convert F k v)
  unfolding convert
  convert-IsTyped k null = tt
  convert-IsTyped k (boolean b) = convert_bool-IsTyped k b
  convert-IsTyped k (integer z) = convert_integer-IsTyped k z
  convert-IsTyped k (float x) = convert_float-IsTyped k x
  convert-IsTyped k (string s) = tt
  convert-IsTyped k (texts ts) = tt
  convert-IsTyped k (array vs) = tt
  convert-IsTyped k (object fields) = tt

  set_element-IsTyped :
      (k : Kind) (v : ConfigValue F.Num) → OnSome (IsTypedScalar k) (set_element F k v)
  unfolding set_element
  set_element-IsTyped string_kind null = (refl, tt)
  set_element-IsTyped bool_kind null = (refl, tt)
  set_element-IsTyped float32_kind null = (refl, tt)
  set_element-IsTyped float64_kind null = (refl, tt)
  set_element-IsTyped (int_kind w) null = (refl, zero_lt_half w)
  set_element-IsTyped (uint_kind w) null = (refl, zero_lt_double w)
  set_element-IsTyped k (string s) = parse_scalar-IsTyped k s
  set_element-IsTyped k (boolean b) = convert-IsTyped k (boolean b)
  set_element-IsTyped k (integer z) = convert-IsTyped k (integer z)
  set_element-IsTyped k (float x) = convert-IsTyped k (float x)
  set_element-IsTyped k (texts ts) = convert-IsTyped k (texts ts)
  set_element-IsTyped k (array vs) = convert-IsTyped k (array vs)
  set_element-IsTyped k (object fields) = convert-IsTyped k (object fields)

  set_elements-IsTyped :
      (k : Kind) (vs : List (ConfigValue F.Num))
      → OnSome (All (IsTypedScalar k)) (set_elements F k vs)
  unfolding set_elements
  set_elements-IsTyped k [] = tt
  set_elements-IsTyped k (v ∷ vs) =
      on_both (IsTypedScalar k) (All (IsTypedScalar k)) (All (IsTypedScalar k)) (λ s rest. s ∷ rest)
        (set_element F k v) (set_elements F k vs) (λ s rest p q. (p, q)) (set_element-IsTyped k v)
        (set_elements-IsTyped k vs)

  pub set_slice_value-Keeps :
      (slot : Slot F.Num) (vs : List (ConfigValue F.Num))
      → OnSome (Keeps slot) (set_slice_value F slot vs)
  unfolding set_slice_value type_of
  set_slice_value-Keeps (scalar s) vs = tt
  set_slice_value-Keeps (struct fields) vs = tt
  set_slice_value-Keeps (slice k old) vs =
      OnSome-if (All (IsTypedScalar k)) (Keeps (slice k old)) (slice k) (set_elements F k vs)
        (λ new p. (refl, p)) (set_elements-IsTyped k vs)

  All-texts :
      (f : Text → Text) (ts : List Text)
      → All (λ (x : Scalar F.Num). IsTypedScalar string_kind x) (map (λ t. text_scalar (f t)) ts)
  All-texts f [] = tt
  All-texts f (t ∷ ts) = ((refl, tt), All-texts f ts)

  set_texts-Keeps :
      (k : Kind) (old : List (Scalar F.Num)) (ts : List Text)
      → OnSome (Keeps (slice k old)) (set_texts F k ts)
  unfolding type_of
  set_texts-Keeps k old [] = (refl, tt)
  set_texts-Keeps string_kind old (t ∷ ts) = (refl, All-texts (λ x. x) (t ∷ ts))
  set_texts-Keeps bool_kind old (t ∷ ts) = tt
  set_texts-Keeps float32_kind old (t ∷ ts) = tt
  set_texts-Keeps float64_kind old (t ∷ ts) = tt
  set_texts-Keeps (int_kind w) old (t ∷ ts) = tt
  set_texts-Keeps (uint_kind w) old (t ∷ ts) = tt

  set_scalar-Keeps :
      (old : Scalar F.Num) (o : Option (Scalar F.Num))
      → OnSome (IsTypedScalar (kind_of old)) o
      → OnSome (Keeps (scalar old)) (elim o [ none ↦ none | some new ↦ some (scalar new) ])
  unfolding type_of
  set_scalar-Keeps old o p =
      OnSome-if (IsTypedScalar (kind_of old)) (Keeps (scalar old)) scalar o
        (λ new q. (ap scalar_type q.0, q.1)) p

  set_from_string-Keeps :
      (slot : Slot F.Num) (s : Text) → OnSome (Keeps slot) (set_from_string F slot s)
  unfolding type_of
  set_from_string-Keeps (scalar old) s =
      set_scalar-Keeps old (parse_scalar F (kind_of old) s) (parse_scalar-IsTyped (kind_of old) s)
  set_from_string-Keeps (slice string_kind old) s = (refl, All-texts trim_space (split b',' s))
  set_from_string-Keeps (slice bool_kind old) s = tt
  set_from_string-Keeps (slice float32_kind old) s = tt
  set_from_string-Keeps (slice float64_kind old) s = tt
  set_from_string-Keeps (slice (int_kind w) old) s = tt
  set_from_string-Keeps (slice (uint_kind w) old) s = tt
  set_from_string-Keeps (struct fields) s = tt

  pub set_field_value-Keeps :
      (slot : Slot F.Num) (v : ConfigValue F.Num)
      → IsTyped slot
      → OnSome (Keeps slot) (set_field_value F slot v)
  unfolding set_field_value type_of
  set_field_value-Keeps slot null typed = (refl, typed)
  set_field_value-Keeps slot (string s) typed = set_from_string-Keeps slot s
  set_field_value-Keeps (slice k old) (texts ts) typed = set_texts-Keeps k old ts
  set_field_value-Keeps (slice k old) (array nil) typed = (refl, tt)
  set_field_value-Keeps (slice k old) (array (cons v vs)) typed = tt
  set_field_value-Keeps (slice k old) (boolean b) typed = tt
  set_field_value-Keeps (slice k old) (integer z) typed = tt
  set_field_value-Keeps (slice k old) (float x) typed = tt
  set_field_value-Keeps (slice k old) (object fields) typed = tt
  set_field_value-Keeps (scalar old) (boolean b) typed =
      set_scalar-Keeps old _ (convert-IsTyped (kind_of old) (boolean b))
  set_field_value-Keeps (scalar old) (integer z) typed =
      set_scalar-Keeps old _ (convert-IsTyped (kind_of old) (integer z))
  set_field_value-Keeps (scalar old) (float x) typed =
      set_scalar-Keeps old _ (convert-IsTyped (kind_of old) (float x))
  set_field_value-Keeps (scalar old) (texts ts) typed = tt
  set_field_value-Keeps (scalar old) (array vs) typed = tt
  set_field_value-Keeps (scalar old) (object fields) typed = tt
  set_field_value-Keeps (struct inner) (boolean b) typed = tt
  set_field_value-Keeps (struct inner) (integer z) typed = tt
  set_field_value-Keeps (struct inner) (float x) typed = tt
  set_field_value-Keeps (struct inner) (texts ts) typed = tt
  set_field_value-Keeps (struct inner) (array vs) typed = tt
  set_field_value-Keeps (struct inner) (object fields) typed = tt
