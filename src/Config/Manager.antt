-- ===== src/Config/Manager.antt =====
-- config/manager.go: DefaultManager. The validator library is a parameter, a test on structs.
pub mod Precedence
pub mod Reload
use microlib.Prelude.{
  ◌>>=◌, ℕ, zero, suc, Bool, true, false, Option, none, some, List, [], ◌∷◌, ◌++◌, map, ltb, sort,
  not, if◌then◌else◌, ◌&&◌, ◌||◌, String,
}
use microlib.Config.Values.{
  ConfigFloats, ConfigValue, null, boolean, integer, float, string, texts, array, object, Elements,
  nil, cons, Entries, end, entry, elements, Settings, Width, w8, w16, w32, w64, half, residue,
  wrap_uint, wrap_int, Kind, string_kind, bool_kind, float32_kind, float64_kind, int_kind,
  uint_kind, Scalar, text_scalar, bool_scalar, float32_scalar, float64_scalar, int_scalar,
  uint_scalar, kind_of, zero_scalar, Slot, scalar, slice, struct, Struct, no_field, field, Place,
}
use microlib.Config.Merge.{merge_missing, merge_config}

-- A source, for surroundings `E` such as the environment and the files: what it loads from them,
-- where `none` is an error.
pub record Source (E N : Type 0) : Type 0 where
  pub name : String
  pub priority : ℕ
  pub load : E → Option (Settings N)

-- `config` is the struct that is watched, and `watching` is whether there is a `cancel`. The
-- watchers and the components that reload are called by their numbers.
pub record DefaultManager (E N : Type 0) : Type 0 where
  pub sources : List (Source E N)
  pub watchers : List ℕ
  pub reloadables : List ℕ
  pub config : Option (Slot N)
  pub watching : Bool

unfoldable pub new_manager : {E N : Type 0} → List (Source E N) → DefaultManager E N
new_manager sources = record {
  sources = sources;
  watchers = [];
  reloadables = [];
  config = none;
  watching = false;
}

unfoldable pub add_source : {E N : Type 0} → Source E N → DefaultManager E N → DefaultManager E N
add_source source m = record m { sources = m.sources ++ source ∷ [] }

abbrev pub higher : {E N : Type 0} → Source E N → Source E N → Bool
higher a b = ltb b.priority a.priority

-- The loop over the sources in Load: a source that fails is left out.
unfoldable pub merge_sources : {E N : Type 0} → E → List (Source E N) → Settings N → Settings N
unfolding merge_missing
merge_sources e [] merged = merged
merge_sources e (source ∷ sources) merged = elim (source.load e) [
  | none ↦ merge_sources e sources merged
  | some settings ↦ merge_sources e sources (merge_missing merged settings)
]

unfoldable pub merged_settings : {E N : Type 0} → E → List (Source E N) → Settings N
unfolding sort merge_sources
merged_settings e sources = merge_sources e (sort higher sources) []

-- `reflect.New`: the zero value of a struct's type.
unfoldable mutual
  pub cleared : {N : Type 0} → (Kind → Scalar N) → Slot N → Slot N
  cleared zero_of (scalar s) = scalar (zero_of (kind_of s))
  cleared zero_of (slice k old) = slice k []
  cleared zero_of (struct fields) = struct (cleared_struct zero_of fields)

  pub cleared_struct : {N : Type 0} → (Kind → Scalar N) → Struct N → Struct N
  cleared_struct zero_of no_field = no_field
  cleared_struct zero_of (field name json yaml slot rest) =
      field name json yaml (cleared zero_of slot) (cleared_struct zero_of rest)

unfoldable pub watch : {E N : Type 0} → ℕ → DefaultManager E N → DefaultManager E N
watch callback m = record m { watchers = m.watchers ++ callback ∷ [] }

unfoldable pub register_reloadable : {E N : Type 0} → ℕ → DefaultManager E N → DefaultManager E N
register_reloadable component m = record m { reloadables = m.reloadables ++ component ∷ [] }

unfoldable pub start_watching : {E N : Type 0} → Slot N → DefaultManager E N → DefaultManager E N
start_watching config m = record m { config = some config; watching = true }

unfoldable pub stop_watching : {E N : Type 0} → DefaultManager E N → DefaultManager E N
stop_watching m = record m { watching = false }

-- What is called on a manager, and a change that the watch of a source reports.
pub data ManagerCall (E N : Type 0) : Type 0 where
  watch_call register_call : ℕ → ManagerCall E N
  add_source_call : Source E N → ManagerCall E N
  start_call : Slot N → ManagerCall E N
  stop_call : ManagerCall E N
  change : E → ManagerCall E N

module _ {E : Type 0} (F : ConfigFloats) (is_valid : Slot F.Num → Bool) where
  -- Whether there is no error, and the destination, which is to be a struct.
  unfoldable pub load : E → DefaultManager E F.Num → Slot F.Num → Bool × Slot F.Num
  unfolding merged_settings merge_config
  load e m (struct fields) =
      let dest = merge_config F (merged_settings e m.sources) (struct fields) in
      (is_valid dest, dest)
  load e m dest = (false, dest)

  -- Whether there is no error, the watchers and components that are told, and the manager.
  unfoldable pub reload_config : E → DefaultManager E F.Num → Bool × List ℕ × DefaultManager E F.Num
  unfolding load cleared
  reload_config e m = elim m.config [
    | none ↦ (false, [], m)
    | some config ↦
        let (ok, new_config) = load e m (cleared (zero_scalar F) config) in
        if ok
        then (true, m.watchers ++ m.reloadables, record m { config = some new_config })
        else (false, [], m)
  ]

  unfoldable pub run_call : ManagerCall E F.Num → DefaultManager E F.Num → DefaultManager E F.Num
  unfolding watch register_reloadable add_source start_watching stop_watching reload_config
  run_call (watch_call callback) m = watch callback m
  run_call (register_call component) m = register_reloadable component m
  run_call (add_source_call source) m = add_source source m
  run_call (start_call config) m = start_watching config m
  run_call stop_call m = stop_watching m
  run_call (change e) m = let (ok, told, m') = reload_config e m in m'

  unfoldable pub run_calls :
      List (ManagerCall E F.Num) → DefaultManager E F.Num → DefaultManager E F.Num
  unfolding run_call
  run_calls [] m = m
  run_calls (call ∷ calls) m = run_calls calls (run_call call m)
