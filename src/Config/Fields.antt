-- ===== src/Config/Fields.antt =====
-- config/manager.go: findField, and reading and writing at the place that it finds. A
-- `reflect.Value` of a field is a reference into the struct, which is the field's place here.
use microlib.Prelude.{
  ◌>>=◌, ℕ, zero, suc, Bool, Option, none, some, List, [], ◌∷◌, text_beq, is_empty, not,
  if◌then◌else◌, ◌&&◌, ◌||◌,
}
use microlib.Text.{Text, split}
use microlib.Text.Parts.{equal_fold}
use microlib.Config.Values.{Slot, struct, Struct, no_field, field, Place}

-- The name in a tag: what is before the first comma.
unfoldable pub tag_name : Text → Text
unfolding split
tag_name tag = elim (split b',' tag) [ [] ↦ [] | part ∷ parts ↦ part ]

abbrev answers_to : Text → Text → Text → Text → Bool
answers_to name json yaml wanted =
    equal_fold name wanted
    || (not (is_empty json) && text_beq (tag_name json) wanted)
    || (not (is_empty yaml) && text_beq (tag_name yaml) wanted)

module _ {N : Type 0} where
  -- The number of the first field that answers to the name.
  unfoldable pub find_field_by_name : Struct N → Text → Option ℕ
  unfolding equal_fold tag_name
  find_field_by_name no_field wanted = none
  find_field_by_name (field name json yaml slot rest) wanted =
      let later = find_field_by_name rest wanted in
      if answers_to name json yaml wanted
      then some 0
      else elim later [ none ↦ none | some i ↦ some (suc i) ]

  abbrev pub slot_at : Struct N → ℕ → Option (Slot N)
  slot_at no_field i = none
  slot_at (field name json yaml slot rest) zero = some slot
  slot_at (field name json yaml slot rest) (suc i) = slot_at rest i

  abbrev pub put_at : Struct N → ℕ → Slot N → Struct N
  put_at no_field i new = no_field
  put_at (field name json yaml slot rest) zero new = field name json yaml new rest
  put_at (field name json yaml slot rest) (suc i) new =
      field name json yaml slot (put_at rest i new)

  -- `none` where a part names no field, or stands in what is no struct.
  unfoldable pub find_field : Slot N → List Text → Option Place
  unfolding find_field_by_name
  find_field current [] = some []
  find_field (struct fields) (part ∷ parts) = do
    i ← find_field_by_name fields part
    slot ← slot_at fields i
    place ← find_field slot parts
    some (i ∷ place)
  find_field _ (part ∷ parts) = none

  unfoldable pub read : Slot N → Place → Option (Slot N)
  read slot [] = some slot
  read (struct fields) (i ∷ place) = do slot ← slot_at fields i; read slot place
  read _ (i ∷ place) = none

  unfoldable pub write : Slot N → Place → Slot N → Slot N
  write slot [] new = new
  write (struct fields) (i ∷ place) new = elim (slot_at fields i) [
    | none ↦ struct fields
    | some slot ↦ struct (put_at fields i (write slot place new))
  ]
  write slot (i ∷ place) new = slot
