-- ===== src/Gateway/Context.antt =====
-- src/gateway/func_call_context.h: what a connection keeps of the call it is answering. Buffers are
-- their contents (Utils/Buffer has how they keep them).
use nightcore.Prelude.{ℕ, List, [], ◌++◌}
use nightcore.Prelude.Names.{Name}
use nightcore.Protocol.{FuncCall, invalid_func_call}
use nightcore.Gateway.Server.{Status, created}

pub record FuncCallContext : Type 0 where
  pub status : Status
  pub func_name : Name
  pub method_name : Name
  pub func_call : FuncCall
  pub input : List ℕ
  pub output : List ℕ

abbrev pub append_input : FuncCallContext → List ℕ → FuncCallContext
append_input c bytes = record c { input = c.input ++ bytes }

-- `h2_stream_id_` is kept.
abbrev pub reset : FuncCallContext → FuncCallContext
reset c = record c {
  status = created;
  func_name = [];
  method_name = [];
  func_call = invalid_func_call;
  input = [];
  output = [];
}
