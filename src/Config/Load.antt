-- ===== src/Config/Load.antt =====
-- src/common/func_config.cpp: `Load` and the validation of names and ids. The JSON library is a
-- parameter; `none` stands for the exception it throws, which `Load` catches.
use nightcore.Prelude.Attempt.{◌>>=◌, ◌>>◌, require}
use nightcore.Prelude.Int.{ℤ, pos, negsuc, pos_part, ltb_ℤ, leb_ℤ}
use nightcore.Prelude.Map.{contains, insert}
use nightcore.Prelude.Names.{Name, starts_with, all_bytes, has_name, put_name, bytes}
use nightcore.Prelude.{
  ℕ, Bool, true, false, not, ◌&&◌, ◌||◌, Option, none, some, List, [], ◌∷◌, ◌++◌, length, drop, ltb,
  leb, ◌==◌, if◌then◌else◌,
}
use nightcore.Protocol.{max_func_id, max_method_id}
use nightcore.Config.{Entry, FuncConfig}

-- What `Load` uses of nlohmann::json. `elements` is `is_array` with the iteration.
pub record JsonLib (Json : Type 0) : Type 0 where
  pub parse : Name → Option Json
  pub elements : Json → Option (List Json)
  pub at : Json → Name → Option Json
  pub has_key : Json → Name → Bool
  pub get_string : Json → Option Name
  pub get_int : Json → Option ℤ
  pub get_bool : Json → Option Bool

abbrev pub grpc_prefix : Name
grpc_prefix = bytes "grpc:"

abbrev pub strip_prefix : Name → Name → Name
strip_prefix text prefix = if starts_with text prefix then drop (length prefix) text else text

abbrev pub validate_func_id : ℤ → Bool
validate_func_id func_id = ltb_ℤ (pos 0) func_id && leb_ℤ func_id (pos max_func_id)

abbrev is_between : ℕ → ℕ → ℕ → Bool
is_between low high byte = leb low byte && leb byte high

abbrev is_alphanumeric : ℕ → Bool
is_alphanumeric byte =
    is_between b'0' b'9' byte || is_between b'a' b'z' byte || is_between b'A' b'Z' byte

unfoldable pub validate_func_name : Name → Bool
validate_func_name func_name =
    if starts_with func_name grpc_prefix
    then all_bytes (λ byte. is_alphanumeric byte || (byte == b'.') || (byte == b'_'))
        (strip_prefix func_name grpc_prefix)
    else all_bytes is_alphanumeric func_name

-- The entry before its optional fields are read.
abbrev pub fresh_entry : Name → ℕ → ℤ → ℤ → Entry
fresh_entry func_name func_id min_workers max_workers = record {
  func_name = func_name;
  func_id = func_id;
  min_workers = min_workers;
  max_workers = max_workers;
  allow_http_get = false;
  qs_as_input = false;
  is_grpc_service = false;
  grpc_service_name = [];
  grpc_methods = [];
  grpc_method_ids = [];
}

abbrev pub register : FuncConfig → Entry → FuncConfig
register c entry = record {
  entries = c.entries ++ (entry ∷ []);
  entries_by_func_name = put_name entry.func_name entry c.entries_by_func_name;
  entries_by_func_id = insert entry.func_id entry c.entries_by_func_id;
}

module _ {Json : Type 0} (lib : JsonLib Json) where
  open lib use {parse, elements, at, has_key, get_string, get_int, get_bool}

  abbrev pub string_at : Json → Name → Option Name
  string_at item key = at item key >>= get_string

  abbrev pub int_at : Json → Name → Option ℤ
  int_at item key = at item key >>= get_int

  -- An optional number, -1 if it is absent.
  abbrev pub workers_at : Json → Name → Option ℤ
  workers_at item key = if has_key item key then int_at item key else some (negsuc 0)

  -- An optional flag.
  abbrev pub flag_at : Json → Name → Option Bool
  flag_at item key = if has_key item key then (at item key >>= get_bool) else some false

  -- `method_id` is the number of methods so far.
  unfoldable pub load_methods : List Json → Entry → Option Entry
  load_methods [] entry = some entry
  load_methods (method ∷ methods) entry = do
    let method_id = length entry.grpc_methods
    require (not (ltb max_method_id method_id))
    method_name ← get_string method
    require (not (has_name method_name entry.grpc_method_ids))
    load_methods methods (record entry {
      grpc_methods = entry.grpc_methods ++ (method_name ∷ []);
      grpc_method_ids = put_name method_name method_id entry.grpc_method_ids;
    })

  unfoldable pub load_service : Json → Entry → Option Entry
  load_service item entry = do
    grpc_methods ← at item (bytes "grpcMethods")
    methods ← elements grpc_methods
    load_methods methods (record entry {
      is_grpc_service = true;
      grpc_service_name = strip_prefix entry.func_name grpc_prefix;
    })

  unfoldable pub load_function : Json → Entry → Option Entry
  load_function item entry = do
    allow ← flag_at item (bytes "allowHttpGet")
    qs ← flag_at item (bytes "qsAsInput")
    some (record entry { allow_http_get = allow; qs_as_input = qs })

  -- One round of the loop: `none` is a return of false, with nothing registered.
  unfoldable pub load_item : FuncConfig → Json → Option FuncConfig
  load_item c item = do
    func_name ← string_at item (bytes "funcName")
    require (validate_func_name func_name)
    require (not (has_name func_name c.entries_by_func_name))
    func_id ← int_at item (bytes "funcId")
    require (validate_func_id func_id)
    require (not (contains (pos_part func_id) c.entries_by_func_id))
    min_workers ← workers_at item (bytes "minWorkers")
    max_workers ← workers_at item (bytes "maxWorkers")
    let fresh = fresh_entry func_name (pos_part func_id) min_workers max_workers
    entry ←
        if starts_with func_name grpc_prefix
        then load_service item fresh
        else load_function item fresh
    some (register c entry)

  -- The items before a bad one stay registered.
  unfoldable pub load_items : List Json → FuncConfig → Bool × FuncConfig
  load_items [] c = (true, c)
  load_items (item ∷ items) c = elim (load_item c item) [
    | none ↦ (false, c)
    | some c' ↦ load_items items c'
  ]

  -- `Load`: what it returns, and the configuration it leaves.
  unfoldable pub load : Name → FuncConfig → Bool × FuncConfig
  load json_contents c = elim (parse json_contents >>= elements) [
    | none ↦ (false, c)
    | some items ↦ load_items items c
  ]
