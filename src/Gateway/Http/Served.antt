-- ===== src/Gateway/Http/Served.antt =====
-- src/gateway/http_connection.cpp: a request from its last byte to the end of its response.
use nightcore.Prelude.{
  ℕ, ◌≡◌, ◌∙◌, refl, arith, true, false, not, ◌&&◌, ◌||◌, Option, none, some, List, [], ◌∷◌, ◌++◌,
}
use nightcore.Prelude.Int.{pos}
use nightcore.Prelude.Names.{Name, same_name, starts_with, bytes}
use nightcore.Prelude.Result.{ok, Returns}
use nightcore.Config.{Entry, FuncConfig, find_by_func_name}
use nightcore.Protocol.{FuncCall, invalid_func_call}
use nightcore.Gateway.Context.{FuncCallContext}
use nightcore.Gateway.Server.{Status}
use nightcore.Gateway.Http.{
  HttpConnection, Handled, taken, ended_at_once, running, Lib, Action, Step, ◌then_do◌, read_start,
  read_stop, respond, new_func_call, stop_recv_data, start_recv_data, data_written,
}
use nightcore.Gateway.Http.Request.{
  hand_over, function_prefix, http_ok, http_not_found, http_internal_server_error, input_of,
  on_new_http_request, on_message_complete, on_func_call_finished_internal,
}

-- The response to a call that ended with this status and output.
abbrev pub response_of : Status → List ℕ → Option (ℕ × List ℕ)
response_of Status.success output = some (http_ok, output)
response_of Status.not_found output = some (http_not_found, [])
response_of Status.no_node output = some (http_internal_server_error, [])
response_of Status.failed output = some (http_internal_server_error, [])
response_of Status.created output = none

-- What the connection gives to the server.
abbrev pub context_of : Name → List ℕ → FuncCallContext
context_of name input = record {
  status = Status.created;
  func_name = name;
  method_name = [];
  func_call = invalid_func_call;
  input = input;
  output = [];
}

-- The response to a call: the one at its end for a call that the server keeps, and for a call that it
-- ends at once the one to that status, if the IO worker is running.
abbrev pub answer_of : Handled → Status → List ℕ → Option (ℕ × List ℕ)
answer_of (taken call) status output = response_of status output
answer_of (ended_at_once call now true) status output = response_of now []
answer_of (ended_at_once call now false) status output = none

-- The call that the context has in the end.
abbrev pub call_of : Option FuncCall → FuncCall
call_of call = elim call [ none ↦ invalid_func_call | some made ↦ made ]

-- The context of the connection while the server has the call.
abbrev pub with_call : FuncCall → HttpConnection → Name → List ℕ → HttpConnection
with_call call c name input = record c {
  func_call_context = record (context_of name input) { func_call = call };
}

-- How the server leaves the connection when the call has ended.
abbrev pub ended : HttpConnection → Status → List ℕ → HttpConnection
ended c status output = record c {
  func_call_context = record c.func_call_context { status = status; output = output };
}

module _ (lib : Lib) (config : FuncConfig) where
  -- The URL and method name a function that takes the body as its input.
  pub record IsCall (url_bytes : List ℕ) (method name : Name) : Type 0 where
    pub path : List ℕ
    pub query : Option (List ℕ)
    pub entry : Entry
    pub known_method : (same_name method (bytes "GET") || same_name method (bytes "POST")) ≡ true
    pub parsed : lib.parse_url url_bytes ≡ some (some path, query)
    pub prefixed : path ≡ function_prefix ++ name
    pub found : find_by_func_name config name ≡ some entry
    pub allowed : (not entry.allow_http_get && same_name method (bytes "GET")) ≡ false
    pub takes_body : entry.qs_as_input ≡ false

  request-IsCall :
      (c : HttpConnection) (method name : Name) (qs : List ℕ) (handled : Handled)
      (call : IsCall c.url_buffer method name)
      → on_new_http_request lib config c method call.path qs handled
        ≡ hand_over handled (record c { func_call_context = context_of name c.body_buffer })
  unfolding on_new_http_request input_of starts_with
  request-IsCall c method name qs handled call =
      simp (call.known_method, call.prefixed, call.found, call.allowed, call.takes_body)

  complete-request :
      (c : HttpConnection) (method path : Name) (query : Option (List ℕ)) (handled : Handled)
      (r : HttpConnection × List Action)
      → c.state ≡ running
      → lib.parse_url c.url_buffer ≡ some (some path, query)
      → ((qs : List ℕ) → on_new_http_request lib config c method path qs handled ≡ ok r)
      → on_message_complete lib config c method handled ≡ ok (r.0, read_stop ∷ r.1)
  unfolding on_message_complete stop_recv_data
  complete-request c method path none handled r up parsed answer = simp (up, parsed, answer [])
  complete-request c method path (some qs) handled r up parsed answer = simp (up, parsed, answer qs)

  -- Whatever the server does with the call.
  complete-handled :
      (c : HttpConnection) (method name : Name) (handled : Handled)
      (r : HttpConnection × List Action)
      → c.state ≡ running
      → IsCall c.url_buffer method name
      → hand_over handled (record c { func_call_context = context_of name c.body_buffer }) ≡ ok r
      → on_message_complete lib config c method handled ≡ ok (r.0, read_stop ∷ r.1)
  complete-handled c method name handled r up call given =
      complete-request c method call.path call.query handled r up call.parsed
        (λ qs. request-IsCall c method name qs handled call ∙ given)

  complete-IsCall :
      (c : HttpConnection) (method name : Name) (made : FuncCall)
      → c.state ≡ running
      → IsCall c.url_buffer method name
      → on_message_complete lib config c method (taken made)
        ≡ ok (
          with_call made c name c.body_buffer,
          read_stop ∷ new_func_call (context_of name c.body_buffer) ∷ [],
        )
  unfolding hand_over
  complete-IsCall c method name made up call =
      complete-handled c method name (taken made) _ up call refl

  ended_lem :
      (c : HttpConnection) (status : Status) (output : List ℕ) (response : ℕ × List ℕ)
      → c.state ≡ running
      → response_of status output ≡ some response
      → on_func_call_finished_internal (ended c status output)
        ≡ ok (ended c status output, respond response.0 response.1 ∷ [])
  unfolding on_func_call_finished_internal
  ended_lem c Status.created output r up e = cc e
  ended_lem c Status.success output r up e = ground (arith, up, e)
  ended_lem c Status.failed output r up e = ground (arith, up, e)
  ended_lem c Status.no_node output r up e = ground (arith, up, e)
  ended_lem c Status.not_found output r up e = ground (arith, up, e)

  -- The end of a call that the server has kept.
  abbrev pub end_call : Handled → Status → List ℕ → HttpConnection → Step
  end_call (taken call) status output c = on_func_call_finished_internal (ended c status output)
  end_call (ended_at_once call now runs) status output c = ok (c, [])

  -- The request's last byte, the end of the call unless it has ended, and the end of the write.
  abbrev pub served : HttpConnection → Name → Handled → Status → List ℕ → Step
  served c method handled status output =
      on_message_complete lib config c method handled then_do λ d.
      end_call handled status output d then_do λ e. data_written e (pos 0)

  -- A call that the server ends at once.
  complete-ended :
      (c : HttpConnection) (method name : Name) (now : Status) (call : Option FuncCall)
      (response : ℕ × List ℕ)
      → c.state ≡ running
      → IsCall c.url_buffer method name
      → response_of now [] ≡ some response
      → on_message_complete lib config c method (ended_at_once call now true)
        ≡ ok (
          ended (with_call (call_of call) c name c.body_buffer) now [],
          read_stop
              ∷ new_func_call (context_of name c.body_buffer)
              ∷ respond response.0 response.1
              ∷ [],
        )
  unfolding hand_over
  complete-ended c method name now call response up is_call answered =
      complete-handled c method name (ended_at_once call now true) _ up is_call (
        rw (ended_lem (with_call (call_of call) c name c.body_buffer) now [] response up answered)
          refl)

  -- On a running connection, a request whose URL and method name a function that takes the body as
  -- its input, when the server keeps the call and later ends it with any status but the initial
  -- one, or ends it at once with such a status, while the IO worker runs: reading stops, the call
  -- goes to the server with the name and the body, one response goes out, with the code of the
  -- status and the output if the call succeeded, and when it is written reading starts again on a
  -- connection that runs.
  pub served-IsCall :
      (c : HttpConnection) (method name : Name) (handled : Handled) (status : Status)
      (output : List ℕ) (response : ℕ × List ℕ)
      → c.state ≡ running
      → IsCall c.url_buffer method name
      → answer_of handled status output ≡ some response
      → Returns (served c method handled status output) (λ r.
        (r.0.state ≡ running)
        × (r.1
            ≡ read_stop
              ∷ new_func_call (context_of name c.body_buffer)
              ∷ respond response.0 response.1
              ∷ read_start
              ∷ []))
  unfolding data_written start_recv_data
  served-IsCall c method name (taken made) status output response up call answered =
      let d = with_call made c name c.body_buffer in
      rw
        (complete-IsCall c method name made up call, ended_lem d status output response up answered)
        (up, simp up)
  served-IsCall c method name (ended_at_once made now false) status output response up call
        answered =
      cc answered
  served-IsCall c method name (ended_at_once made now true) status output response up call
        answered =
      rw (complete-ended c method name now made response up call answered) (up, simp up)
