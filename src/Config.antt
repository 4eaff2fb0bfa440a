-- ===== src/Config.antt =====
-- src/common/func_config.h: the entries of the function configuration and their lookup.
use nightcore.Prelude.{ℕ, Option, List, [], Bool}
use nightcore.Prelude.Int.{ℤ}
use nightcore.Prelude.Map.{Map, lookup}
use nightcore.Prelude.Names.{Name, NameMap, find_name}
pub mod Load
pub mod Methods
pub mod Consistent
mod Registered
mod Tests

-- `grpc_methods` lists the methods in the order of their ids.
pub record Entry : Type 0 where
  pub func_name : Name
  pub func_id : ℕ
  pub min_workers : ℤ
  pub max_workers : ℤ
  pub allow_http_get : Bool
  pub qs_as_input : Bool
  pub is_grpc_service : Bool
  pub grpc_service_name : Name
  pub grpc_methods : List Name
  pub grpc_method_ids : NameMap ℕ

-- No entry changes after it is registered, so the maps hold entries where the source's hold
-- pointers into `entries_`.
pub record FuncConfig : Type 0 where
  pub entries : List Entry
  pub entries_by_func_name : NameMap Entry
  pub entries_by_func_id : Map Entry

abbrev pub empty_config : FuncConfig
empty_config = record { entries = []; entries_by_func_name = []; entries_by_func_id = [] }

abbrev pub find_by_func_name : FuncConfig → Name → Option Entry
find_by_func_name c func_name = find_name func_name c.entries_by_func_name

abbrev pub find_by_func_id : FuncConfig → ℕ → Option Entry
find_by_func_id c func_id = lookup func_id c.entries_by_func_id
