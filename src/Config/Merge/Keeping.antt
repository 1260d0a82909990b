-- ===== src/Config/Merge/Keeping.antt =====
-- config/manager.go: mergeConfig keeps the type of the struct.
use microlib.Prelude.{
  ℕ, zero, suc, Option, some, List, [], ◌∷◌, map, Dict, lookup, text_eq, sort, ◌≡◌, refl, ap, ◌∙◌,
  inl, inr, Option-cases,
}
use microlib.Text.{Text, split}
use microlib.Config.Values.{
  ConfigFloats, Settings, Slot, scalar, slice, struct, Struct, no_field, field, Place,
}
use microlib.Config.Types.{struct_type, field_type, type_of, type_of_struct, IsTyped, IsTypedStruct}
use microlib.Config.Convert.{set_slice_value, set_field_value}
use microlib.Config.Fields.{slot_at, put_at, find_field, read, write}
use microlib.Config.Merge.{
  value_at, array_base, array_keys, changed_field, update_key, set_arrays, set_regular,
  merge_config, text_before,
}
use microlib.Config.Merge.Typing.{
  OnSome, OnSome_apply, Keeps, set_slice_value-Keeps, set_field_value-Keeps,
}

module _ {N : Type 0} where
  put_at-type_of :
      (s : Struct N) (i : ℕ) (old new : Slot N)
      → slot_at s i ≡ some old
      → type_of new ≡ type_of old
      → type_of_struct (put_at s i new) ≡ type_of_struct s
  unfolding type_of
  put_at-type_of no_field i old new h e = refl
  put_at-type_of (field n j y slot rest) zero old new h e =
      ap (λ t. field_type n j y t (type_of_struct rest)) (e ∙ ap type_of {y = slot} cc)
  put_at-type_of (field n j y slot rest) (suc i) old new h e =
      ap (field_type n j y (type_of slot)) (put_at-type_of rest i old new h e)

  put_at-IsTyped :
      (s : Struct N) (i : ℕ) (new : Slot N)
      → IsTypedStruct s
      → IsTyped new
      → IsTypedStruct (put_at s i new)
  put_at-IsTyped no_field i new p q = tt
  put_at-IsTyped (field n j y slot rest) zero new p q = (q, p.1)
  put_at-IsTyped (field n j y slot rest) (suc i) new p q = (p.0, put_at-IsTyped rest i new p.1 q)

  slot_at-IsTyped : (s : Struct N) (i : ℕ) → IsTypedStruct s → OnSome IsTyped (slot_at s i)
  slot_at-IsTyped no_field i p = tt
  slot_at-IsTyped (field n j y slot rest) zero p = p.0
  slot_at-IsTyped (field n j y slot rest) (suc i) p = slot_at-IsTyped rest i p.1

  read-IsTyped : (slot : Slot N) (place : Place) → IsTyped slot → OnSome IsTyped (read slot place)
  unfolding read
  read-IsTyped slot [] p = p
  read-IsTyped (struct fields) (i ∷ place) p = elim (Option-cases (slot_at fields i)) [
    | inl out ↦ rw out tt
    | inr (inner, at) ↦
        rw at
          (read-IsTyped inner place (OnSome_apply IsTyped _ inner (slot_at-IsTyped fields i p) at))
  ]
  read-IsTyped (scalar s) (i ∷ place) p = tt
  read-IsTyped (slice k values) (i ∷ place) p = tt

  -- A write of a field that is of the old one's type.
  write-Keeps :
      (slot : Slot N) (place : Place) (old new : Slot N)
      → IsTyped slot
      → read slot place ≡ some old
      → Keeps old new
      → Keeps slot (write slot place new)
  unfolding read write type_of
  write-Keeps slot [] old new p h k = (k.0 ∙ ap type_of {y = slot} cc, k.1)
  write-Keeps (struct fields) (i ∷ place) old new p h k = elim (Option-cases (slot_at fields i)) [
    | inl out ↦ cc (rw out at h)
    | inr (inner, at) ↦
        let typed = OnSome_apply IsTyped _ inner (slot_at-IsTyped fields i p) at in
        let (same, fits) = write-Keeps inner place old new typed (rw at at h) k in
        rw (write, at)
          (
            ap struct_type (put_at-type_of fields i inner _ at same),
            put_at-IsTyped fields i _ p fits,
          )
  ]
  write-Keeps (scalar s) (i ∷ place) old new p h k = cc
  write-Keeps (slice k values) (i ∷ place) old new p h _ = cc

module _ (F : ConfigFloats) where
  update_key-Keeps :
      (key : Text) (change : Slot F.Num → Option (Slot F.Num)) (dest : Slot F.Num)
      → ((slot : Slot F.Num) → IsTyped slot → OnSome (Keeps slot) (change slot))
      → IsTyped dest
      → Keeps dest (update_key F key change dest)
  unfolding update_key changed_field
  update_key-Keeps key change dest keeps p =
      elim (Option-cases (find_field dest (split b'.' key))) [
        | inl lost ↦ rw (update_key, changed_field, lost) (refl, p)
        | inr (place, found) ↦ (elim (Option-cases (read dest place)) [
          | inl out ↦ rw (update_key, changed_field, found, out) (refl, p)
          | inr (slot, at) ↦ (elim (Option-cases (change slot)) [
            | inl refused ↦ rw (update_key, changed_field, found, at, refused) (refl, p)
            | inr (new, made) ↦
                rw (update_key, changed_field, found, at, made)
                  (write-Keeps dest place slot new p at (
                    OnSome_apply (Keeps slot) (change slot) new
                      (keeps slot (OnSome_apply IsTyped _ slot (read-IsTyped dest place p) at))
                      made))
          ])
        ])
      ]

  Keeps-trans : (a b c : Slot F.Num) → Keeps a b → Keeps b c → Keeps a c
  Keeps-trans a b c p q = (q.0 ∙ p.0, q.1)

  set_arrays-Keeps :
      (settings : Settings F.Num) (arrays : Dict Text (List Text)) (dest : Slot F.Num)
      → IsTyped dest
      → Keeps dest (set_arrays F settings arrays dest)
  unfolding set_arrays
  set_arrays-Keeps settings [] dest p = (refl, p)
  set_arrays-Keeps settings ((base, keys) ∷ arrays) dest p =
      let values = map (value_at settings) (sort text_before keys) in
      let first =
        update_key-Keeps base (λ slot. set_slice_value F slot values) dest
          (λ slot q. set_slice_value-Keeps F slot values) p in
      Keeps-trans dest _ _ first (set_arrays-Keeps settings arrays _ first.1)

  set_regular-Keeps :
      (settings : Settings F.Num) (arrays : Dict Text (List Text)) (dest : Slot F.Num)
      → IsTyped dest
      → Keeps dest (set_regular F settings arrays dest)
  unfolding set_regular
  set_regular-Keeps [] arrays dest p = (refl, p)
  set_regular-Keeps ((key, value) ∷ settings) arrays dest p = elim (Option-cases (array_base key)) [
    | inr (base, indexed) ↦ rw (set_regular, indexed) (set_regular-Keeps settings arrays dest p)
    | inl plain ↦ (elim (Option-cases (lookup key arrays)) [
      | inr (keys, taken) ↦
          rw (set_regular, plain, taken) (set_regular-Keeps settings arrays dest p)
      | inl free ↦
          let first =
            update_key-Keeps key (λ slot. set_field_value F slot value) dest
              (λ slot. set_field_value-Keeps F slot value) p in
          rw (set_regular, plain, free)
            (Keeps-trans dest _ _ first (set_regular-Keeps settings arrays _ first.1))
    ])
  ]

  pub merge_config-Keeps :
      (settings : Settings F.Num) (dest : Slot F.Num)
      → IsTyped dest
      → Keeps dest (merge_config F settings dest)
  unfolding merge_config
  merge_config-Keeps settings dest p =
      let arrays = array_keys settings [] in
      let first = set_arrays-Keeps settings arrays dest p in
      Keeps-trans dest _ _ first (set_regular-Keeps settings arrays _ first.1)
