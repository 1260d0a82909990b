-- ===== src/Config/Sources.antt =====
-- config/source.go: what the environment and the flags load. The environment's variables, and the
-- flags that `VisitAll` visits, are lists in that order.
pub mod Numbers
use microlib.Prelude.{
  ℕ, suc, Bool, true, false, not, Option, none, some, List, [], ◌∷◌, ◌++◌, map, Dict, insert,
  text_eq, nat_beq, is_empty, if◌then◌else◌, ◌&&◌,
}
use microlib.Text.{Text, text, has_prefix, trim_prefix, split}
use microlib.Text.Parts.{cut, contains_text, trim_space, to_lower, equal_fold, replace}
use microlib.Text.Numbers.{scan_int, show}
use microlib.Config.Values.{
  ConfigFloats, ConfigValue, boolean, integer, float, string, texts, Settings,
}

-- A number, by `Sscanf`, or else the string.
unfoldable pub parse_number : (F : ConfigFloats) → Text → ConfigValue F.Num
unfolding scan_int
parse_number F value = elim (scan_int value) [
  | some z ↦ integer z
  | none ↦ elim (F.scan_float value) [ some x ↦ float x | none ↦ string value ]
]

-- parseValue, where the value is the string on its error.
unfoldable parse_value : (F : ConfigFloats) → Text → ConfigValue F.Num
unfolding equal_fold parse_number
parse_value F value =
    if equal_fold value (text "true")
    then boolean true
    else if equal_fold value (text "false")
    then boolean false
    else parse_number F value

-- The items under the key and their number, from `i` on.
unfoldable pub add_items : {N : Type 0} → Text → ℕ → List Text → Settings N → Settings N
unfolding insert show
add_items key i [] result = result
add_items key i (item ∷ items) result =
    add_items key (suc i) items (insert (key ++ b'.' ∷ show i) (string item) result)

unfoldable pub add_value : (F : ConfigFloats) → Text → Text → Settings F.Num → Settings F.Num
unfolding equal_fold contains_text split trim_space insert add_items parse_number
add_value F key value result =
    let items = map trim_space (split b',' value) in
    if equal_fold value (text "true")
    then insert key (boolean true) result
    else if equal_fold value (text "false")
    then insert key (boolean false) result
    else if contains_text (b',' ∷ []) value && not (contains_text (92 ∷ b',' ∷ []) value)
    then add_items key 0 items (insert key (texts items) result)
    else insert key (parse_number F value) result

abbrev skip_underscore : Text → Text
skip_underscore [] = []
skip_underscore (c ∷ key) = if nat_beq c b'_' then key else c ∷ key

-- The key of a variable, or `none` if it has not the prefix.
unfoldable pub env_key : Text → Text → Option Text
unfolding has_prefix trim_prefix to_lower replace
env_key prefix key =
    let rest = if is_empty prefix then key else skip_underscore (trim_prefix key prefix) in
    if not (is_empty prefix) && not (has_prefix key prefix)
    then none
    else some (replace b'_' b'.' (to_lower rest))

unfoldable pub add_variable : (F : ConfigFloats) → Text → Text → Settings F.Num → Settings F.Num
unfolding cut env_key add_value
add_variable F prefix variable result = elim (cut (b'=' ∷ []) variable) [
  | none ↦ result
  | some (name, value) ↦ elim (env_key prefix name) [
    | none ↦ result
    | some key ↦ add_value F key value result
  ]
]

unfoldable pub load_env : (F : ConfigFloats) → Text → List Text → Settings F.Num → Settings F.Num
unfolding add_variable
load_env F prefix [] result = result
load_env F prefix (variable ∷ environ) result =
    load_env F prefix environ (add_variable F prefix variable result)

pub record Flag : Type 0 where
  pub name : Text
  pub value : Text
  pub changed : Bool

pub record FlagSource (N : Type 0) : Type 0 where
  pub flag_set : Option (List Flag)
  pub values : Settings N

unfoldable flag_key : Text → Text
unfolding to_lower replace
flag_key name = replace b'-' b'.' (to_lower name)

unfoldable add_flags : (F : ConfigFloats) → List Flag → Settings F.Num → Settings F.Num
unfolding flag_key parse_value insert
add_flags F [] result = result
add_flags F (flag ∷ flags) result =
    if flag.changed
    then add_flags F flags (insert (flag_key flag.name) (parse_value F flag.value) result)
    else add_flags F flags result

unfoldable load_flags : (F : ConfigFloats) → FlagSource F.Num → Settings F.Num
unfolding add_flags
load_flags F s = elim s.flag_set [ none ↦ s.values | some flags ↦ add_flags F flags s.values ]

unfoldable set_value : {N : Type 0} → Text → ConfigValue N → FlagSource N → FlagSource N
unfolding insert
set_value key value s = record s { values = insert key value s.values }
