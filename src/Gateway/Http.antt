-- ===== src/Gateway/Http.antt =====
-- src/gateway/http_connection.cpp: an HTTP connection of a client. The parser is another library: its
-- callbacks are a list of events, in the order in which they are made. Buffers are their contents.
pub mod Query
mod Encoding
pub mod Decoding
pub mod Request
mod Headers
mod Served
mod Tests
use nightcore.Prelude.{
  ℕ, ◌+◌, ◌≡◌, Bool, true, false, not, ◌&&◌, ◌||◌, Option, none, some, List, [], ◌∷◌, ◌++◌, ltb,
  ◌==◌, if◌then◌else◌, length, drop,
}
use nightcore.Prelude.Int.{ℤ, pos, negsuc, eq_ℤ, ltb_ℤ, pos_part}
use nightcore.Prelude.Names.{Name, NameMap, put_name, same_name, starts_with, bytes}
use nightcore.Prelude.Result.{Result, ok, err, ◌>>=◌, ◌>>◌, check, deref, uncaught_exception}
use nightcore.Config.{FuncConfig, find_by_func_name}
use nightcore.Protocol.{FuncCall}
use nightcore.Utils.Buffer.{grow}
use nightcore.Gateway.Context.{FuncCallContext, append_input}
use nightcore.Gateway.Context
use nightcore.Gateway.Server.{Status}
use nightcore.Gateway.Http.Query.{TextLib, query_string_to_json}

pub data State : Type 0 where
  created running closing closed : State

abbrev pub is_created : State → Bool
is_created created = true
is_created _ = false

abbrev pub is_running : State → Bool
is_running running = true
is_running _ = false

abbrev pub is_closing : State → Bool
is_closing closing = true
is_closing _ = false

-- What the server's handler of a new call does before it returns: it keeps the call, or ends it at
-- once with a status. It sets the call in the context, but not if the function is unknown. The end of
-- a call within the event loop is handled at once, if the IO worker is running.
pub data Handled : Type 0 where
  taken : FuncCall → Handled
  ended_at_once : Option FuncCall → Status → Bool → Handled

-- A callback of the parser; `message_complete` comes with the name of the method, and with what the
-- server's handler does if it is called.
pub data ParserEvent : Type 0 where
  message_begin : ParserEvent
  url : List ℕ → ParserEvent
  header_field : List ℕ → ParserEvent
  header_value : List ℕ → ParserEvent
  headers_complete : ParserEvent
  body : List ℕ → ParserEvent
  message_complete : Name → Handled → ParserEvent

-- The path and the query string of an URL, where it has them; `none` if it does not parse.
pub record Lib : Type 0 where
  pub text : TextLib
  pub parse_url : List ℕ → Option (Option (List ℕ) × Option (List ℕ))

-- `headers` has the names and values as they were when they were entered. The code keeps views into
-- the two buffers: `headers_valid` says that neither buffer has moved since the first of these
-- headers, so that the views still show what they showed then. A buffer moves when it grows beyond
-- its size.
pub record HttpConnection : Type 0 where
  pub state : State
  pub func_call_context : FuncCallContext
  pub header_field_value_flag : ℤ
  pub url_buffer : List ℕ
  pub header_field_buffer : List ℕ
  pub header_value_buffer : List ℕ
  pub body_buffer : List ℕ
  pub header_field_buffer_pos : ℕ
  pub header_value_buffer_pos : ℕ
  pub header_field_size : ℕ
  pub header_value_size : ℕ
  pub headers : NameMap (List ℕ)
  pub headers_valid : Bool

-- What a callback asks for: reading on or off, `uv_close`, a response, the server's handler of a new
-- call, and the IO worker's `ScheduleFunction` and `OnConnectionClose`.
pub data Action : Type 0 where
  read_start read_stop close_handle : Action
  respond : ℕ → List ℕ → Action
  new_func_call : FuncCallContext → Action
  schedule_function connection_closed : Action

abbrev pub Step : Type 0
Step = Result (HttpConnection × List Action)

unfoldable pub start_recv_data : HttpConnection → HttpConnection × List Action
start_recv_data c = (c, (if is_running c.state then read_start ∷ [] else []))

unfoldable pub stop_recv_data : HttpConnection → HttpConnection × List Action
stop_recv_data c = (c, (if is_running c.state then read_stop ∷ [] else []))

unfoldable pub start : HttpConnection → Step
unfolding start_recv_data
start c = do check (is_created c.state); ok (start_recv_data (record c { state = running }))

unfoldable pub schedule_close : HttpConnection → Step
schedule_close c =
    if is_closing c.state
    then ok (c, [])
    else (do check (is_running c.state); ok (record c { state = closing }, close_handle ∷ []))

-- One step after another.
infixl 5 ◌then_do◌
abbrev pub ◌then_do◌ : Step → (HttpConnection → Step) → Step
m then_do f = m >>= λ r. f r.0 >>= λ q. ok (q.0, r.1 ++ q.1)

unfoldable pub data_written : HttpConnection → ℤ → Step
unfolding start_recv_data schedule_close
data_written c status = if eq_ℤ status (pos 0) then ok (start_recv_data c) else schedule_close c

unfoldable pub on_close : HttpConnection → Step
on_close c = do check (is_closing c.state); ok (record c { state = closed }, connection_closed ∷ [])

unfoldable pub on_message_begin : HttpConnection → HttpConnection
on_message_begin c = record c {
  header_field_value_flag = negsuc 0;
  header_field_buffer = [];
  header_value_buffer = [];
  header_field_buffer_pos = 0;
  header_value_buffer_pos = 0;
  url_buffer = [];
  headers = [];
  headers_valid = true;
}

unfoldable pub on_new_header : HttpConnection → HttpConnection
on_new_header c = record c {
  header_field_buffer_pos = length c.header_field_buffer;
  header_value_buffer_pos = length c.header_value_buffer;
  headers =
      put_name (drop c.header_field_buffer_pos c.header_field_buffer)
        (drop c.header_value_buffer_pos c.header_value_buffer) c.headers;
}

-- A header is entered once a value has been read and something else follows.
unfoldable pub end_header : HttpConnection → HttpConnection
unfolding on_new_header
end_header c = if eq_ℤ c.header_field_value_flag (pos 1) then on_new_header c else c

-- The size of a buffer after `AppendData`.
abbrev pub grown : ℕ → List ℕ → List ℕ → ℕ
grown size old bytes = let need = length old + length bytes in grow need need size

-- Views stay valid if the buffer has not moved, and if there are none.
abbrev pub still_valid : HttpConnection → ℕ → ℕ → Bool
still_valid c old_size new_size = c.headers_valid && (new_size == old_size || length c.headers == 0)

unfoldable pub on_header_field : HttpConnection → List ℕ → HttpConnection
unfolding end_header
on_header_field c bytes =
    let d = end_header c in
    let size = grown d.header_field_size d.header_field_buffer bytes in
    record d {
      header_field_buffer = d.header_field_buffer ++ bytes;
      header_field_size = size;
      headers_valid = still_valid d d.header_field_size size;
      header_field_value_flag = pos 0;
    }

unfoldable pub on_header_value : HttpConnection → List ℕ → HttpConnection
on_header_value c bytes =
    let size = grown c.header_value_size c.header_value_buffer bytes in
    record c {
      header_value_buffer = c.header_value_buffer ++ bytes;
      header_value_size = size;
      headers_valid = still_valid c c.header_value_size size;
      header_field_value_flag = pos 1;
    }

unfoldable pub on_headers_complete : HttpConnection → HttpConnection
unfolding end_header
on_headers_complete c = record (end_header c) { body_buffer = [] }
