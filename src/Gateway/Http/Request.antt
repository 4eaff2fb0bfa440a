-- ===== src/Gateway/Http/Request.antt =====
-- src/gateway/http_connection.cpp: what the parser's callbacks do with a request, and the response.
use nightcore.Prelude.{
  ℕ, Bool, not, ◌&&◌, ◌||◌, none, some, List, [], ◌∷◌, ◌++◌, ltb, if◌then◌else◌, length, drop,
}
use nightcore.Prelude.Int.{ℤ, pos, eq_ℤ, ltb_ℤ, pos_part}
use nightcore.Prelude.Names.{Name, same_name, starts_with, bytes}
use nightcore.Prelude.Result.{Result, ok, err, ◌>>=◌, uncaught_exception}
use nightcore.Config.{FuncConfig, find_by_func_name}
use nightcore.Gateway.Context.{FuncCallContext, append_input}
use nightcore.Gateway.Context
use nightcore.Gateway.Server.{Status}
use nightcore.Gateway.Http.Query.{query_string_to_json}
use nightcore.Protocol.{FuncCall}
use nightcore.Gateway.Http.{
  Handled, taken, ended_at_once, HttpConnection, is_running, ParserEvent, message_begin, url,
  header_field, header_value, headers_complete, body, message_complete, Lib, respond, new_func_call,
  Step, ◌then_do◌, stop_recv_data, schedule_close, on_message_begin, on_header_field,
  on_header_value, on_headers_complete,
}

abbrev pub http_ok : ℕ
http_ok = 200

abbrev pub http_not_found : ℕ
http_not_found = 404

abbrev pub http_internal_server_error : ℕ
http_internal_server_error = 500

abbrev pub function_prefix : Name
function_prefix = bytes "/function/"

-- The response of a call that has ended, by its status.
unfoldable pub on_func_call_finished_internal : HttpConnection → Step
on_func_call_finished_internal c =
    if not (is_running c.state) then ok (c, []) else elim c.func_call_context.status [
      | Status.success ↦ ok (c, respond http_ok c.func_call_context.output ∷ [])
      | Status.not_found ↦ ok (c, respond http_not_found [] ∷ [])
      | Status.no_node ↦ ok (c, respond http_internal_server_error [] ∷ [])
      | Status.failed ↦ ok (c, respond http_internal_server_error [] ∷ [])
      | Status.created ↦ schedule_close c
    ]

-- The server's handler is called with the context.
unfoldable pub hand_over : Handled → HttpConnection → Step
unfolding on_func_call_finished_internal
hand_over (taken call) c = ok (
  record c { func_call_context = record c.func_call_context { func_call = call } },
  new_func_call c.func_call_context ∷ [],
)
hand_over (ended_at_once call status running) c =
    let set : FuncCall = elim call [ none ↦ c.func_call_context.func_call | some made ↦ made ] in
    let over : HttpConnection = record c {
      func_call_context = record c.func_call_context { func_call = set; status = status };
    } in
    let handled =
      ok (over, new_func_call c.func_call_context ∷ []) then_do on_func_call_finished_internal in
    if running then handled else ok (over, new_func_call c.func_call_context ∷ [])

module _ (lib : Lib) (config : FuncConfig) where
  -- The input of a call: its query string as JSON, or the body.
  unfoldable pub input_of : HttpConnection → Bool → List ℕ → Result (List ℕ)
  input_of c qs_as_input qs =
      if qs_as_input
      then (elim (query_string_to_json lib.text qs) [
        | none ↦ err uncaught_exception
        | some json ↦ ok json
      ])
      else ok c.body_buffer

  unfoldable pub on_new_http_request : HttpConnection → Name → Name → List ℕ → Handled → Step
  on_new_http_request c method path qs handled =
      if not (same_name method (bytes "GET") || same_name method (bytes "POST"))
        || not (starts_with path function_prefix)
      then ok (c, respond http_not_found [] ∷ [])
      else (let func_name = drop (length function_prefix) path in
          elim (find_by_func_name config func_name) [
            | none ↦ ok (c, respond http_not_found [] ∷ [])
            | some entry ↦
                if not entry.allow_http_get && same_name method (bytes "GET")
                then ok (c, respond http_not_found [] ∷ [])
                else (do
                  input ← input_of c entry.qs_as_input qs
                  let context =
                      append_input
                        (record (Context.reset c.func_call_context) { func_name = func_name }) input
                  hand_over handled (record c { func_call_context = context }))
          ])

  -- `ResetHttpParser` is of the parser alone.
  unfoldable pub on_message_complete : HttpConnection → Name → Handled → Step
  on_message_complete c method handled = ok (stop_recv_data c) then_do λ d.
      elim (lib.parse_url d.url_buffer) [
        | none ↦ schedule_close d
        | some (none, query) ↦ schedule_close d
        | some (some path, none) ↦ on_new_http_request d method path [] handled
        | some (some path, some qs) ↦ on_new_http_request d method path qs handled
      ]

  unfoldable pub on_event : HttpConnection → ParserEvent → Step
  on_event c message_begin = ok (on_message_begin c, [])
  on_event c (url bytes) = ok (record c { url_buffer = c.url_buffer ++ bytes }, [])
  on_event c (header_field bytes) = ok (on_header_field c bytes, [])
  on_event c (header_value bytes) = ok (on_header_value c bytes, [])
  on_event c headers_complete = ok (on_headers_complete c, [])
  on_event c (body bytes) = ok (record c { body_buffer = c.body_buffer ++ bytes }, [])
  on_event c (message_complete method handled) = on_message_complete c method handled

  unfoldable pub on_events : List ParserEvent → HttpConnection → Step
  on_events [] c = ok (c, [])
  on_events (e ∷ events) c = on_event c e then_do on_events events

  -- `events` and `parsed` are what the parser makes of the bytes.
  unfoldable pub recv_data : HttpConnection → ℤ → List ParserEvent → ℕ → Step
  recv_data c nread events parsed =
      if ltb_ℤ nread (pos 0)
      then schedule_close c
      else if eq_ℤ nread (pos 0)
      then ok (c, [])
      else on_events events c then_do λ d.
          if ltb parsed (pos_part nread) then schedule_close d else ok (d, [])
