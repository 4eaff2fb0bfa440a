-- ===== src/Config/Tests.antt =====
-- A configuration is loaded through a small JSON library.
use nightcore.Prelude.Attempt.{◌>>=◌}
use nightcore.Prelude.Int.{ℤ, pos}
use nightcore.Prelude.Map.{lookup}
use nightcore.Prelude.Names.{
  Name, NameMap, same_name, find_name, starts_with, all_bytes, has_name, put_name, bytes,
}
use nightcore.Prelude.{ℕ, ◌≡◌, refl, Bool, true, false, Option, none, some, List, [], ◌∷◌, map}
use nightcore.Config.Consistent.{IsConsistent, load-IsConsistent}
use nightcore.Config.Load.{
  JsonLib, load_methods, load_service, load_function, load_item, load_items, load,
  validate_func_name,
}
use nightcore.Config.Registered.{AllLoaded, load-AllLoaded}
use nightcore.Config.{empty_config}

-- Values of three levels are enough: an array of objects whose fields are plain or arrays of texts.
data Field : Type 0 where
  text : Name → Field
  number : ℤ → Field
  flag : Bool → Field
  texts : List Name → Field

data Value : Type 0 where
  plain : Field → Value
  fields : NameMap Field → Value
  array : List (NameMap Field) → Value

value_elements : Value → Option (List Value)
value_elements (plain (texts ts)) = some (map (λ t. plain (text t)) ts)
value_elements (array xs) = some (map fields xs)
value_elements _ = none

value_at : Value → Name → Option Value
value_at (fields fs) key = find_name key fs >>= λ f. some (plain f)
value_at _ key = none

value_has : Value → Name → Bool
value_has (fields fs) key = has_name key fs
value_has _ key = false

value_text : Value → Option Name
value_text (plain (text n)) = some n
value_text _ = none

value_number : Value → Option ℤ
value_number (plain (number n)) = some n
value_number _ = none

value_flag : Value → Option Bool
value_flag (plain (flag b)) = some b
value_flag _ = none

abbrev entry_foo : NameMap Field
entry_foo =
    (bytes "funcName", text (bytes "Foo"))
    ∷ (bytes "funcId", number (pos 1))
    ∷ (bytes "qsAsInput", flag true)
    ∷ []

abbrev entry_grpc : NameMap Field
entry_grpc =
    (bytes "funcName", text (bytes "grpc:a.B"))
    ∷ (bytes "funcId", number (pos 2))
    ∷ (bytes "minWorkers", number (pos 3))
    ∷ (bytes "grpcMethods", texts (bytes "Get" ∷ bytes "Put" ∷ []))
    ∷ []

-- Every text but the empty one stands for the same file.
abbrev file : Value
file = array (entry_foo ∷ entry_grpc ∷ [])

parse_file : Name → Option Value
parse_file [] = none
parse_file (b ∷ bs) = some file

abbrev json_lib : JsonLib Value
json_lib = record {
  parse = parse_file;
  elements = value_elements;
  at = value_at;
  has_key = value_has;
  get_string = value_text;
  get_int = value_number;
  get_bool = value_flag;
}

empty_config-IsConsistent : IsConsistent empty_config
unfolding lookup find_name
empty_config-IsConsistent = record { by_id = λ i e h. cc h; by_name = λ n e h. cc h }

load_file : (load json_lib (bytes "x") empty_config).0 ≡ true
unfolding load load_items load_item load_service load_function load_methods validate_func_name
    starts_with all_bytes find_name put_name lookup parse_file value_elements value_at value_has
    value_text value_number value_flag same_name nightcore.Prelude.Map.insert
load_file = refl

load-IsConsistent_example : IsConsistent (load json_lib (bytes "x") empty_config).1
load-IsConsistent_example =
    load-IsConsistent json_lib (bytes "x") empty_config empty_config-IsConsistent

load-AllLoaded_example :
    AllLoaded json_lib
      (load json_lib (bytes "x") empty_config).1
      (fields entry_foo ∷ fields entry_grpc ∷ [])
load-AllLoaded_example =
    load-AllLoaded json_lib (bytes "x") file (fields entry_foo ∷ fields entry_grpc ∷ [])
      empty_config (unfold parse_file in refl) (unfold value_elements in refl) load_file
