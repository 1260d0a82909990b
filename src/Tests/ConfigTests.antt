-- ===== src/Tests/ConfigTests.antt =====
-- config/: a struct of three fields, and sources that give some of them.
use microlib.Prelude.{
  ◌≡◌, refl, true, false, Bool, none, some, List, [], ◌∷◌, ℤ, pos, lookup, insert, text_eq,
  if◌then◌else◌, All, arith, sort, place, ltb,
}
use microlib.Text.{Text, text, split, has_prefix, trim_prefix}
use microlib.Text.Parts.{
  equal_fold, cut, contains_text, to_lower, replace, trim_space, trim_left, trim_right, is_space,
  join,
}
use microlib.Text.Numbers.{show, show_digits, scan_int, parse_int, digits_value, leading_digits}
use microlib.Config.Values.{
  ConfigFloats, integer, string, texts, w8, w16, wrap_int, wrap_uint, string_kind, text_scalar,
  int_scalar, uint_scalar, Slot, scalar, slice, struct, no_field, field,
}
use microlib.Config.Types.{type_of}
use microlib.Config.Convert.{set_field_value, parse_scalar, convert, convert_integer}
use microlib.Config.Fields.{find_field, find_field_by_name, read, write, tag_name}
use microlib.Config.Merge.{
  merge_missing, merge_config, array_base, array_keys, set_arrays, set_regular, update_key,
  changed_field,
}
use microlib.Config.Sources.{parse_number, load_env, add_variable, add_value, add_items, env_key}
use microlib.Config.Sources.Numbers.{set_field_value-parse_number}
use microlib.Config.Files.{Event, watch_loop}
use microlib.Config.Files.Debounce.{IsCovered, watch_loop-IsCovered}
use microlib.Config.Manager.{
  Source, DefaultManager, start_call, change, merged_settings, merge_sources, load, reload_config,
  run_calls,
}
use microlib.Config.Manager.Precedence.{KeyOutcome, lookup-merged_settings}
use microlib.Config.Manager.Reload.{Reloaded, IsSound, reload_config-Reloaded, run_calls-IsSound}
use microlib.Config.Container.{Config}

-- Whole numbers in place of floats.
abbrev floats : ConfigFloats
floats = record {
  Num = ℤ;
  zero = pos 0;
  parse_float = λ s. none;
  scan_float = λ s. none;
  of_int = λ z. z;
  to_int64 = λ z. z;
  to_uint64 = λ z. 0;
  to_float32 = λ z. z;
}

abbrev settings_struct : Text → ℤ → Slot ℤ
settings_struct name port = struct (
    field (text "Name") (text "name,omitempty") [] (scalar (text_scalar name)) (
      field (text "Port") [] [] (scalar (int_scalar w16 port))
        (field (text "Hosts") [] [] (slice string_kind []) no_field)))

abbrev empty : Slot ℤ
empty = settings_struct [] (pos 0)

abbrev environ : List Text
environ = text "APP_PORT=8080" ∷ text "HOME=/root" ∷ text "APP_HOSTS=a, b" ∷ []

env_loads :
    load_env floats (text "APP") environ []
    ≡ (text "port", integer (pos 8080))
      ∷ (text "hosts", texts (text "a" ∷ text "b" ∷ []))
      ∷ (text "hosts.0", string (text "a"))
      ∷ (text "hosts.1", string (text "b"))
      ∷ []
unfolding load_env add_variable add_value add_items env_key cut has_prefix trim_prefix to_lower
    replace equal_fold contains_text split trim_space trim_left trim_right is_space show show_digits
    insert parse_number scan_int digits_value leading_digits
env_loads = refl

-- A file below the environment, added first.
abbrev sources : List (Source Bool ℤ)
sources =
    record {
      name = "file";
      priority = 200;
      load = λ up.
          if up
          then some ((text "port", integer (pos 80)) ∷ (text "name", string (text "shop")) ∷ [])
          else none;
    }
    ∷ record {
      name = "environment";
      priority = 300;
      load = λ up. some ((text "port", integer (pos 8080)) ∷ []);
    }
    ∷ []

lookup-merged_settings_example :
    KeyOutcome (text "port") true sources (lookup (text "port") (merged_settings true sources))
lookup-merged_settings_example = lookup-merged_settings (text "port") true sources

abbrev ports_up : Slot ℤ → Bool
ports_up (struct (field n j y s (field n' j' y' (scalar (int_scalar w (pos p))) rest))) = ltb 0 p
ports_up _ = false

abbrev manager : DefaultManager Bool ℤ
manager = record {
  sources = sources;
  watchers = 1 ∷ [];
  reloadables = [];
  config = none;
  watching = false;
}

merged_example :
    merge_config floats (merged_settings true sources) empty
    ≡ settings_struct (text "shop") (pos 8080)
unfolding merge_config merged_settings array_keys set_arrays set_regular update_key changed_field
    array_base split parse_int find_field find_field_by_name read write set_field_value parse_scalar
    convert convert_integer wrap_int wrap_uint equal_fold tag_name lookup insert sort place
    merge_missing digits_value join merge_sources
merged_example = refl

abbrev started : Slot ℤ
started = settings_struct (text "cart") (pos 1)

reload_config-Reloaded_example :
    Reloaded floats ports_up true
      (record manager { config = some started })
      (reload_config floats ports_up true (record manager { config = some started }))
reload_config-Reloaded_example =
    reload_config-Reloaded floats ports_up true (record manager { config = some started })

run_calls-IsSound_example :
    IsSound floats ports_up
      (type_of empty)
      (run_calls floats ports_up (start_call started ∷ change false ∷ change true ∷ []) manager)
unfolding type_of
run_calls-IsSound_example =
    run_calls-IsSound floats ports_up (type_of empty)
      (start_call started ∷ change false ∷ change true ∷ []) manager
      ((refl, refl, (tt, (omega arith, (tt, tt)))), (tt, (tt, tt))) tt

abbrev events : List Event
events =
    record { name = text "/etc/app.yaml"; is_write = true; time = 5 }
    ∷ record { name = text "/etc/app.yaml"; is_write = true; time = 90_000_000 }
    ∷ []

watch_loop-IsCovered_example :
    All (IsCovered (text "app.yaml") (watch_loop (text "app.yaml") none events)) events
watch_loop-IsCovered_example =
    watch_loop-IsCovered (text "app.yaml") none events (omega arith, (omega arith, tt))

set_field_value-parse_number_example :
    (set_field_value floats (scalar (int_scalar w8 (pos 0))) (parse_number floats (show 100))
      ≡ some (scalar (int_scalar w8 (pos 100))))
    × (set_field_value floats (scalar (uint_scalar w8 3)) (parse_number floats (show 100))
        ≡ some (scalar (uint_scalar w8 100)))
set_field_value-parse_number_example =
    set_field_value-parse_number floats w8 3 100 (pos 0) (omega arith)

abbrev config : Config ℤ
config = record { settings = started; fields = (text "Name", 0 ∷ []) ∷ (text "Port", 1 ∷ []) ∷ [] }
