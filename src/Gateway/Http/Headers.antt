-- ===== src/Gateway/Http/Headers.antt =====
-- src/gateway/http_connection.cpp: headers that the parser hands over in pieces.
use nightcore.Prelude.{ℕ, ◌+◌, ◌≤◌, ◌≡◌, true, List, [], ◌∷◌, ◌++◌, length, drop}
use nightcore.Prelude.Int.{pos}
use nightcore.Prelude.Names.{NameMap, put_name}
use nightcore.Prelude.Result.{Result}
use nightcore.Gateway.Http.{HttpConnection, ParserEvent, header_field, header_value, end_header}
use nightcore.Utils.Framing.Stream.{concat}

-- A name and a value, each in one or more pieces.
pub record Header : Type 0 where
  pub name : List ℕ
  pub more_name : List (List ℕ)
  pub value : List ℕ
  pub more_value : List (List ℕ)

abbrev pub fields_then : List (List ℕ) → List ParserEvent → List ParserEvent
fields_then [] rest = rest
fields_then (b ∷ bs) rest = header_field b ∷ fields_then bs rest

abbrev pub values_then : List (List ℕ) → List ParserEvent → List ParserEvent
values_then [] rest = rest
values_then (b ∷ bs) rest = header_value b ∷ values_then bs rest

abbrev pub headers_then : List Header → List ParserEvent → List ParserEvent
headers_then [] rest = rest
headers_then (h ∷ hs) rest =
    header_field h.name
    ∷ fields_then h.more_name
        (header_value h.value ∷ values_then h.more_value (headers_then hs rest))

-- The headers with the pieces joined.
abbrev pub entered : List Header → NameMap (List ℕ) → NameMap (List ℕ)
entered [] map = map
entered (h ∷ hs) map =
    entered hs (put_name (h.name ++ concat h.more_name) (h.value ++ concat h.more_value) map)

-- No header is being read but perhaps one that is to be entered.
record IsBetween (c : HttpConnection) (map : NameMap (List ℕ)) : Type 0 where
  headers : (end_header c).headers ≡ map
  field_pos : (end_header c).header_field_buffer_pos ≡ length (end_header c).header_field_buffer
  value_pos : (end_header c).header_value_buffer_pos ≡ length (end_header c).header_value_buffer

record IsInField (c : HttpConnection) (map : NameMap (List ℕ)) (name : List ℕ) : Type 0 where
  flag : c.header_field_value_flag ≡ pos 0
  headers : c.headers ≡ map
  field_pos : c.header_field_buffer_pos ≤ length c.header_field_buffer
  field : drop c.header_field_buffer_pos c.header_field_buffer ≡ name
  value_pos : c.header_value_buffer_pos ≡ length c.header_value_buffer

record IsInValue (c : HttpConnection) (map : NameMap (List ℕ)) (n v : List ℕ) : Type 0 where
  flag : c.header_field_value_flag ≡ pos 1
  headers : c.headers ≡ map
  field : drop c.header_field_buffer_pos c.header_field_buffer ≡ n
  value_pos : c.header_value_buffer_pos ≤ length c.header_value_buffer
  value : drop c.header_value_buffer_pos c.header_value_buffer ≡ v

-- How many bytes the names take, and the values.
abbrev pub names_length : List Header → ℕ
names_length [] = 0
names_length (h ∷ hs) = length h.name + (length (concat h.more_name) + names_length hs)

abbrev pub values_length : List Header → ℕ
values_length [] = 0
values_length (h ∷ hs) = length h.value + (length (concat h.more_value) + values_length hs)

-- The views are valid, and there is room for so many bytes of names and of values.
record HasRoom (c : HttpConnection) (names values : ℕ) : Type 0 where
  valid : c.headers_valid ≡ true
  field_room : length c.header_field_buffer + names ≤ c.header_field_size
  value_room : length c.header_value_buffer + values ≤ c.header_value_size
