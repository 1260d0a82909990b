-- ===== src/Config/Manager/Reload.antt =====
-- config/manager.go: reloading. What a reload depends on, and what the configuration is after it.
use microlib.Prelude.{
  ℕ, Bool, true, false, Option, none, some, List, [], ◌∷◌, ◌++◌, ◌≡◌, refl, ap, ap₂, ◌∙◌, inl, inr,
  Bool-cases, All, if◌then◌else◌,
}
use microlib.Config.Values.{
  ConfigFloats, Kind, string_kind, bool_kind, float32_kind, float64_kind, int_kind, uint_kind,
  Scalar, kind_of, zero_scalar, Slot, scalar, slice, struct, Struct, no_field, field,
}
use microlib.Config.Types.{
  SlotType, scalar_type, slice_type, struct_type, StructType, no_field_type, field_type, type_of,
  type_of_struct, IsTyped, IsTypedStruct,
}
use microlib.Config.Merge.Typing.{OnSome, OnSome_apply, Keeps, zero_lt_half, zero_lt_double}
use microlib.Config.Merge.Keeping.{merge_config-Keeps}
use microlib.Config.Manager.{
  DefaultManager, cleared, cleared_struct, merged_settings, load, reload_config, ManagerCall,
  watch_call, register_call, add_source_call, start_call, stop_call, change, run_call, run_calls,
  add_source, watch, register_reloadable, start_watching, stop_watching,
}

module _ {N : Type 0} (zero_of : Kind → Scalar N) where
  -- The zero value of a type.
  unfoldable mutual
    of_type : SlotType → Slot N
    of_type (scalar_type k) = scalar (zero_of k)
    of_type (slice_type k) = slice k []
    of_type (struct_type t) = struct (of_struct_type t)

    of_struct_type : StructType → Struct N
    of_struct_type no_field_type = no_field
    of_struct_type (field_type n j y t rest) = field n j y (of_type t) (of_struct_type rest)

  mutual
    unfolding cleared of_type type_of

    cleared-of_type : (s : Slot N) → cleared zero_of s ≡ of_type (type_of s)
    cleared-of_type (scalar s) = refl
    cleared-of_type (slice k old) = refl
    cleared-of_type (struct fields) = ap struct (cleared-of_struct_type fields)

    cleared-of_struct_type :
        (s : Struct N) → cleared_struct zero_of s ≡ of_struct_type (type_of_struct s)
    cleared-of_struct_type no_field = refl
    cleared-of_struct_type (field n j y slot rest) =
        ap₂ (field n j y) (cleared-of_type slot) (cleared-of_struct_type rest)

  mutual
    unfolding cleared type_of

    type_of-cleared :
        (s : Slot N)
        → ((k : Kind) → kind_of (zero_of k) ≡ k)
        → type_of (cleared zero_of s) ≡ type_of s
    type_of-cleared (scalar s) h = ap scalar_type (h (kind_of s))
    type_of-cleared (slice k old) h = refl
    type_of-cleared (struct fields) h = ap struct_type (type_of-cleared_struct fields h)

    type_of-cleared_struct :
        (s : Struct N)
        → ((k : Kind) → kind_of (zero_of k) ≡ k)
        → type_of_struct (cleared_struct zero_of s) ≡ type_of_struct s
    type_of-cleared_struct no_field h = refl
    type_of-cleared_struct (field n j y slot rest) h =
        ap₂ (field_type n j y) (type_of-cleared slot h) (type_of-cleared_struct rest h)

  mutual
    unfolding cleared

    cleared-IsTyped :
        (s : Slot N) → ((k : Kind) → IsTyped (scalar (zero_of k))) → IsTyped (cleared zero_of s)
    cleared-IsTyped (scalar s) h = h (kind_of s)
    cleared-IsTyped (slice k old) h = tt
    cleared-IsTyped (struct fields) h = cleared_struct-IsTyped fields h

    cleared_struct-IsTyped :
        (s : Struct N)
        → ((k : Kind) → IsTyped (scalar (zero_of k)))
        → IsTypedStruct (cleared_struct zero_of s)
    cleared_struct-IsTyped no_field h = tt
    cleared_struct-IsTyped (field n j y slot rest) h =
        (cleared-IsTyped slot h, cleared_struct-IsTyped rest h)

zero_scalar-kind : (F : ConfigFloats) (k : Kind) → kind_of (zero_scalar F k) ≡ k
zero_scalar-kind F string_kind = refl
zero_scalar-kind F bool_kind = refl
zero_scalar-kind F float32_kind = refl
zero_scalar-kind F float64_kind = refl
zero_scalar-kind F (int_kind w) = refl
zero_scalar-kind F (uint_kind w) = refl

zero_scalar-IsTyped : (F : ConfigFloats) (k : Kind) → IsTyped (scalar (zero_scalar F k))
zero_scalar-IsTyped F string_kind = tt
zero_scalar-IsTyped F bool_kind = tt
zero_scalar-IsTyped F float32_kind = tt
zero_scalar-IsTyped F float64_kind = tt
zero_scalar-IsTyped F (int_kind w) = zero_lt_half w
zero_scalar-IsTyped F (uint_kind w) = zero_lt_double w

-- What a manager's configuration is kept to.
abbrev pub IsSound :
    {E : Type 0} (F : ConfigFloats)
    → (Slot F.Num → Bool)
    → SlotType
    → DefaultManager E F.Num
    → Type 0
IsSound F is_valid t m = OnSome (λ c. (is_valid c ≡ true) × (type_of c ≡ t) × IsTyped c) m.config

module _ {E : Type 0} (F : ConfigFloats) (is_valid : Slot F.Num → Bool) where
  -- Loading keeps the type of the destination, whether the result is valid or not.
  load-Keeps :
      (e : E) (m : DefaultManager E F.Num) (dest : Slot F.Num)
      → IsTyped dest
      → Keeps dest (load F is_valid e m dest).1
  unfolding load
  load-Keeps e m (struct fields) p =
      merge_config-Keeps F (merged_settings e m.sources) (struct fields) p
  load-Keeps e m (scalar s) p = (refl, p)
  load-Keeps e m (slice k old) p = (refl, p)

  load_valid :
      (e : E) (m : DefaultManager E F.Num) (dest : Slot F.Num)
      → (load F is_valid e m dest).0 ≡ true
      → is_valid (load F is_valid e m dest).1 ≡ true
  unfolding load
  load_valid e m (struct fields) h = h
  load_valid e m (scalar s) h = cc
  load_valid e m (slice k old) h = cc

  -- How a reload ends.
  pub data Reloaded (e : E) (m : DefaultManager E F.Num)
      : Bool × List ℕ × DefaultManager E F.Num → Type 0 where
    failed : Reloaded e m (false, [], m)
    reloaded :
        (old new : Slot F.Num)
        → m.config ≡ some old
        → is_valid new ≡ true
        → Keeps old new
        → Reloaded e m (true, m.watchers ++ m.reloadables, record m { config = some new })

  Reloaded-from :
      (e : E) (m : DefaultManager E F.Num) (config : Option (Slot F.Num))
      → m.config ≡ config
      → Reloaded e m (elim config [
        | none ↦ (false, [], m)
        | some config ↦
            let (ok, new_config) = load F is_valid e m (cleared (zero_scalar F) config) in
            if ok
            then (true, m.watchers ++ m.reloadables, record m { config = some new_config })
            else (false, [], m)
      ])
  Reloaded-from e m none at = failed
  Reloaded-from e m (some old) at =
      let zero = cleared (zero_scalar F) old in
      let r = load F is_valid e m zero in
      elim (Bool-cases r.0) [
        | inl ok ↦
            let k =
              load-Keeps e m zero (cleared-IsTyped (zero_scalar F) old (zero_scalar-IsTyped F)) in
            rw ok (
              reloaded old r.1 at (load_valid e m zero ok)
                (k.0 ∙ type_of-cleared (zero_scalar F) old (zero_scalar-kind F), k.1))
        | inr bad ↦ rw bad failed
      ]

  -- A reload either reports no error, and then the manager watches a configuration of the same type
  -- that passed the validation and tells every watcher and component of it, or reports one, and then
  -- nobody is told and the manager is as before.
  pub reload_config-Reloaded :
      (e : E) (m : DefaultManager E F.Num) → Reloaded e m (reload_config F is_valid e m)
  unfolding reload_config
  reload_config-Reloaded e m = Reloaded-from e m m.config refl

  IsSound-Reloaded :
      (t : SlotType) (e : E) (m : DefaultManager E F.Num)
      (r : Bool × List ℕ × DefaultManager E F.Num)
      → Reloaded e m r
      → IsSound F is_valid t m
      → IsSound F is_valid t r.2
  IsSound-Reloaded t e m r failed sound = sound
  IsSound-Reloaded t e m r (reloaded old new was valid keeps) sound =
      let known =
        OnSome_apply (λ c. (is_valid c ≡ true) × (type_of c ≡ t) × IsTyped c) m.config old sound
          was in
      (valid, keeps.0 ∙ known.1, keeps.1)

  -- The calls that start the watch, of a configuration of the type that is valid.
  abbrev StartsSound : SlotType → ManagerCall E F.Num → Type 0
  StartsSound t (start_call config) =
      (is_valid config ≡ true) × (type_of config ≡ t) × IsTyped config
  StartsSound t _ = Unit

  run_call-IsSound :
      (t : SlotType) (call : ManagerCall E F.Num) (m : DefaultManager E F.Num)
      → StartsSound t call
      → IsSound F is_valid t m
      → IsSound F is_valid t (run_call F is_valid call m)
  unfolding run_call add_source watch register_reloadable start_watching stop_watching
  run_call-IsSound t (watch_call n) m starts sound = sound
  run_call-IsSound t (register_call n) m starts sound = sound
  run_call-IsSound t (add_source_call source) m starts sound = sound
  run_call-IsSound t (start_call config) m starts sound = starts
  run_call-IsSound t stop_call m starts sound = sound
  run_call-IsSound t (change e) m starts sound =
      IsSound-Reloaded t e m _ (reload_config-Reloaded e m) sound

  -- Whatever is called on a manager and however its sources change, the configuration that it watches
  -- stays of its type and valid, with every number in its field's width, if it was when the watch
  -- started.
  pub run_calls-IsSound :
      (t : SlotType) (calls : List (ManagerCall E F.Num)) (m : DefaultManager E F.Num)
      → All (StartsSound t) calls
      → IsSound F is_valid t m
      → IsSound F is_valid t (run_calls F is_valid calls m)
  unfolding run_calls
  run_calls-IsSound t [] m starts sound = sound
  run_calls-IsSound t (call ∷ calls) m starts sound =
      run_calls-IsSound t calls (run_call F is_valid call m) starts.1
        (run_call-IsSound t call m starts.0 sound)

  -- How a reload ends, by what the load yields.
  abbrev report :
      DefaultManager E F.Num → Bool × Slot F.Num → Bool × List ℕ × DefaultManager E F.Num
  report m r =
      if r.0
      then (true, m.watchers ++ m.reloadables, record m { config = some r.1 })
      else (false, [], m)
