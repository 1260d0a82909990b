-- ===== src/Config/Files.antt =====
-- config/source.go: FileSource. Reading the file and the parsers of YAML, JSON and TOML are
-- parameters.
pub mod Debounce
use microlib.Prelude.{
  ℕ, suc, ◌+◌, ◌-◌, Bool, true, false, not, Option, none, some, List, [], ◌∷◌, ◌++◌, map, insert,
  text_eq, text_beq, nat_beq, ltb, any, is_empty, if◌then◌else◌, ◌&&◌, ◌||◌,
}
use microlib.Text.{Text, text, split, trim_prefix}
use microlib.Text.Parts.{to_lower}
use microlib.Text.Numbers.{show}
use microlib.Config.Values.{
  ConfigValue, null, boolean, integer, float, string, texts, array, object, Elements, nil, cons,
  Entries, end, entry, Settings,
}

-- The last part of a path, with the slashes at its end taken off: `filepath.Base`.
abbrev last_part : List Text → Text
last_part [] = []
last_part (part ∷ parts) = let rest = last_part parts in if is_empty rest then part else rest

unfoldable pub base : Text → Text
unfolding split
base [] = b'.' ∷ []
base (c ∷ path) =
    let part = last_part (split b'/' (c ∷ path)) in if is_empty part then b'/' ∷ [] else part

-- `filepath.Ext`, without the dot.
abbrev behind_last : List Text → Text
behind_last [] = []
behind_last (part ∷ []) = part
behind_last (part ∷ next ∷ parts) = behind_last (next ∷ parts)

unfoldable extension : Text → Text
unfolding split
extension path = elim (split b'.' (behind_last (split b'/' path))) [
  | [] ↦ []
  | part ∷ parts ↦ if is_empty parts then [] else behind_last parts
]

abbrev nested : Text → Text → Text
nested prefix k = if is_empty prefix then k else prefix ++ b'.' ∷ k

module _ {N : Type 0} where
  -- The elements of an array under the key and their number, from `i` on.
  unfoldable index_elements : Text → ℕ → Elements N → Settings N → Settings N
  unfolding insert show
  index_elements key i nil output = output
  index_elements key i (cons v vs) output =
      index_elements key (suc i) vs (insert (key ++ b'.' ∷ show i) v output)

  unfoldable flatten_map : Entries N → Text → Settings N → Settings N
  unfolding index_elements insert
  flatten_map end prefix output = output
  flatten_map (entry k (object inner) rest) prefix output =
      flatten_map rest prefix (flatten_map inner (nested prefix k) output)
  flatten_map (entry k (array vs) rest) prefix output =
      let key = nested prefix k in
      flatten_map rest prefix (insert key (array vs) (index_elements key 0 vs output))
  flatten_map (entry k v rest) prefix output =
      flatten_map rest prefix (insert (nested prefix k) v output)

pub data FileContent : Type 0 where
  does_not_exist cannot_be_read : FileContent
  content : Text → FileContent

-- The file system, and the parsers, where `none` is an error.
pub record Files (N : Type 0) : Type 0 where
  pub read_file : Text → FileContent
  pub parse_yaml : Text → Option (Entries N)
  pub parse_json : Text → Option (Entries N)
  pub parse_toml : Text → Option (Entries N)

-- `fs_watcher` is the number of the context that the watcher's loop waits for.
pub record FileSource : Type 0 where
  pub path : Text
  pub format : Text
  pub priority : ℕ
  pub watcher : Bool
  pub fs_watcher : Option ℕ

pub data FileSourceOption : Type 0 where
  with_watcher : Bool → FileSourceOption
  with_priority : ℕ → FileSourceOption

abbrev apply_option : FileSourceOption → FileSource → FileSource
apply_option (with_watcher enabled) s = record s { watcher = enabled }
apply_option (with_priority priority) s = record s { priority = priority }

abbrev apply_options : List FileSourceOption → FileSource → FileSource
apply_options [] s = s
apply_options (opt ∷ opts) s = apply_options opts (apply_option opt s)

unfoldable new_file_source : Text → Text → List FileSourceOption → FileSource
unfolding extension
new_file_source path format opts = apply_options opts (record {
  path = path;
  format = if is_empty format then extension path else format;
  priority = 200;
  watcher = false;
  fs_watcher = none;
})

-- The parser of a format, or `none` if the format is not supported.
unfoldable parser : {N : Type 0} → Files N → Text → Option (Text → Option (Entries N))
unfolding to_lower
parser files format =
    let name = to_lower format in
    if text_beq name (text "yaml") || text_beq name (text "yml")
    then some files.parse_yaml
    else if text_beq name (text "json")
    then some files.parse_json
    else if text_beq name (text "toml")
    then some files.parse_toml
    else none

-- `none` is an error.
unfoldable load_file : {N : Type 0} → Files N → FileSource → Option (Settings N)
unfolding parser flatten_map
load_file files s = elim (files.read_file s.path) [
  | does_not_exist ↦ none
  | cannot_be_read ↦ none
  | content bytes ↦ elim (parser files s.format) [
    | none ↦ none
    | some parse ↦ elim (parse bytes) [
      | none ↦ none
      | some result ↦ some (flatten_map result [] [])
    ]
  ]
]

-- Watch in the context of that number, where `created` and `added` are whether the watcher can be
-- created and the directory be watched. The result is whether there is no error.
unfoldable pub watch : ℕ → Bool → Bool → FileSource → Bool × FileSource
watch ctx created added s = if not s.watcher then (true, s) else elim s.fs_watcher [
  | some c ↦ (true, s)
  | none ↦
      if not created
      then (false, s)
      else if not added
      then (false, s)
      else (true, record s { fs_watcher = some ctx })
]

-- What the loop does once its context is cancelled.
unfoldable loop_done : FileSource → FileSource
loop_done s = elim s.fs_watcher [ none ↦ s | some ctx ↦ record s { fs_watcher = none } ]

unfoldable pub close : FileSource → FileSource
close s = record s { fs_watcher = none }

-- An event of the directory: the file's name, whether it is a write or a creation, and the time at
-- which the loop reads it.
pub record Event : Type 0 where
  pub name : Text
  pub is_write : Bool
  pub time : ℕ

abbrev pub debounce_interval : ℕ
debounce_interval = 100_000_000

-- The times at which the loop calls back. `last_event_time` is `none` before the first, since Go's
-- zero time is further back than the interval.
unfoldable pub watch_loop : Text → Option ℕ → List Event → List ℕ
unfolding base
watch_loop path last_event_time [] = []
watch_loop path last_event_time (event ∷ events) =
    let same = watch_loop path last_event_time events in
    let notified = event.time ∷ watch_loop path (some event.time) events in
    if not (text_beq (base event.name) (base path))
    then same
    else if not event.is_write
    then same
    else elim last_event_time [
      | none ↦ notified
      | some last ↦ if ltb (event.time - last) debounce_interval then same else notified
    ]
