-- ===== src/Gateway/Http/Tests.antt =====
-- A connection whose client asks for one function, and the pieces of a header.
use nightcore.Prelude.{◌≡◌, ◌↔◌, refl, true, false, replicate, none, some, [], ◌∷◌}
use nightcore.Prelude.Int.{pos, negsuc}
use nightcore.Prelude.Names.{bytes, find_name, put_name, same_name}
use nightcore.Prelude.Result.{Returns}
use nightcore.Protocol.{FuncCall}
use nightcore.Utils.Buffer.{grow}
use nightcore.Config.{Entry, FuncConfig}
use nightcore.Gateway.Server.{Status}
use nightcore.Gateway.Http.{
  HttpConnection, Lib, taken, on_header_field, on_header_value, on_headers_complete,
  on_message_begin, on_new_header, end_header, running, read_stop, read_start, respond,
  new_func_call, message_begin, headers_complete,
}
use nightcore.Gateway.Http.Request.{on_event, on_events}
use nightcore.Gateway.Http.Query.{parse_query_string_part}
use nightcore.Gateway.Http.Decoding.{IsFormPart, parse_query_string_part_iff}
use nightcore.Gateway.Http.Headers.{Header, headers_then}
use nightcore.Gateway.Http.Served.{IsCall, context_of, served, served-IsCall}

parse_query_string_part_iff_example :
    (parse_query_string_part (bytes "a%2Bb=c+d") ≡ some (bytes "a+b", bytes "c d"))
    ↔ IsFormPart (bytes "a%2Bb=c+d") (bytes "a+b") (bytes "c d")
parse_query_string_part_iff_example =
    parse_query_string_part_iff (bytes "a%2Bb=c+d") (bytes "a+b") (bytes "c d")

abbrev foo : Entry
foo = record {
  func_name = bytes "Foo";
  func_id = 1;
  min_workers = pos 0;
  max_workers = pos 0;
  allow_http_get = false;
  qs_as_input = false;
  is_grpc_service = false;
  grpc_service_name = [];
  grpc_methods = [];
  grpc_method_ids = [];
}

abbrev config : FuncConfig
config = record {
  entries = foo ∷ [];
  entries_by_func_name = (bytes "Foo", foo) ∷ [];
  entries_by_func_id = (1, foo) ∷ [];
}

-- Every URL is a path.
abbrev lib : Lib
lib = record {
  text = record { split = λ qs. qs ∷ []; dump = λ fields. some [] };
  parse_url = λ u. some (some u, none);
}

abbrev connection : HttpConnection
connection = record {
  state = running;
  func_call_context = context_of [] [];
  header_field_value_flag = negsuc 0;
  url_buffer = bytes "/function/Foo";
  header_field_buffer = [];
  header_value_buffer = [];
  body_buffer = 1 ∷ 2 ∷ [];
  header_field_buffer_pos = 0;
  header_value_buffer_pos = 0;
  header_field_size = 48;
  header_value_size = 48;
  headers = [];
  headers_valid = true;
}

abbrev made : FuncCall
made = record { func_id = 1; method_id = 0; client_id = 0; call_id = 4; padding = 0 }

foo-IsCall : IsCall lib config (bytes "/function/Foo") (bytes "POST") (bytes "Foo")
unfolding same_name find_name
foo-IsCall = record {
  path = bytes "/function/Foo";
  query = none;
  entry = foo;
  known_method = refl;
  parsed = refl;
  prefixed = refl;
  found = refl;
  allowed = refl;
  takes_body = refl;
}

served-IsCall_example :
    Returns (served lib config connection (bytes "POST") (taken made) Status.success (7 ∷ [])) (λ r.
      (r.0.state ≡ running)
      × (r.1
          ≡ read_stop
            ∷ new_func_call (context_of (bytes "Foo") (1 ∷ 2 ∷ []))
            ∷ respond 200 (7 ∷ [])
            ∷ read_start
            ∷ []))
served-IsCall_example =
    served-IsCall lib config connection (bytes "POST") (bytes "Foo") (taken made) Status.success
      (7 ∷ []) (200, 7 ∷ []) refl foo-IsCall refl

abbrev host : Header
host = record { name = bytes "Ho"; more_name = bytes "st" ∷ []; value = bytes "a"; more_value = [] }

-- The second name makes the buffer move while the first header is there.
abbrev long : Header
long = record { name = replicate 50 65; more_name = []; value = bytes "b"; more_value = [] }

moved :
    Returns
      (on_events lib config
        (message_begin ∷ headers_then (host ∷ long ∷ []) (headers_complete ∷ []))
        connection)
      (λ r. r.0.headers_valid ≡ false)
unfolding on_events on_event on_header_field on_header_value on_headers_complete on_new_header
    end_header on_message_begin grow put_name
moved = refl
