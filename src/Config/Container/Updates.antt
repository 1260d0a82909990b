-- ===== src/Config/Container/Updates.antt =====
-- config/config.go: how UpdateField ends, and what GetField yields after it.
use microlib.Prelude.{
  Bool, true, false, Option, none, some, lookup, text_eq, ◌≡◌, subst, Bool-cases, inl, inr,
  Option-cases,
}
use microlib.Text.{Text}
use microlib.Config.Values.{ConfigFloats, ConfigValue, Slot, Place}
use microlib.Config.Fields.{read}
use microlib.Config.Container.{Config, get_field, field_at, update_field, assign, is_null}
use microlib.Config.Container.Access.{are_apart, read-write_apart}

-- How an update of a field ends: the field is not there, the value is nil, its type does not fit, or
-- the field has the value after it. No other field has moved.
pub data Updated (F : ConfigFloats) (path : Text) (value : ConfigValue F.Num) (c : Config F.Num)
    : Option (Bool × Config F.Num) → Type 0 where
  missing : get_field path c ≡ none → Updated F path value c (some (false, c))
  panicked :
      (old : Slot F.Num)
      → get_field path c ≡ some old
      → is_null value ≡ true
      → Updated F path value c none
  refused :
      (old : Slot F.Num)
      → get_field path c ≡ some old
      → assign F old value ≡ none
      → Updated F path value c (some (false, c))
  updated :
      (old new : Slot F.Num) (c' : Config F.Num)
      → get_field path c ≡ some old
      → assign F old value ≡ some new
      → get_field path c' ≡ some new
      → c'.fields ≡ c.fields
      → Updated F path value c (some (true, c'))

second :
    {A B : Type 0} {a a' : A} {b b' : B}
    → Path (Option (A × B)) (some (a, b)) (some (a', b'))
    → b ≡ b'
second h = cc

module _ (F : ConfigFloats) where
  -- Writing a field leaves the fields whose places are apart from its own as they are.
  pub get_field-update_field :
      (path other : Text) (value : ConfigValue F.Num) (c c' : Config F.Num) (p q : Place)
      → lookup path c.fields ≡ some p
      → lookup other c.fields ≡ some q
      → are_apart p q ≡ true
      → update_field F path value c ≡ some (true, c')
      → get_field other c' ≡ get_field other c
  unfolding update_field field_at get_field
  get_field-update_field path other value c c' p q at at' apart done =
      elim (Option-cases (read c.settings p)) [
        | inl out ↦ cc (rw (update_field, field_at, at, out) at done)
        | inr (old, there) ↦ elim (Bool-cases (is_null value)) [
          | inl nil ↦ cc (rw (update_field, field_at, at, there, nil) at done)
          | inr filled ↦ elim (Option-cases (assign F old value)) [
            | inl unfit ↦ cc (rw (update_field, field_at, at, there, filled, unfit) at done)
            | inr (new, fit) ↦
                let moved = rw (update_field, field_at, at, there, filled, fit) at done in
                subst (λ k. get_field other k ≡ get_field other c) (second moved)
                  (rw (get_field, at') (read-write_apart c.settings old new p q there apart))
          ]
        ]
      ]
