-- ===== src/Gateway/Http/Query.antt =====
-- src/gateway/http_connection.cpp: query strings. A `char` is a byte; bytes from 128 on are in no
-- range of the tests, as negative `char`s are in none.
use nightcore.Prelude.Attempt.{◌>>=◌}
use nightcore.Prelude.Names.{Name, NameMap, put_name}
use nightcore.Prelude.{
  ℕ, zero, suc, ◌+◌, ◌-◌, ◌*◌, Bool, true, false, ◌&&◌, ◌||◌, Option, none, some, List, [], ◌∷◌,
  ◌++◌, ◌==◌, leb, if◌then◌else◌, get_elem?,
}

-- `none` stands for -1.
unfoldable pub to_hex : ℕ → Option ℕ
to_hex ch =
    if leb b'0' ch && leb ch b'9'
    then some (ch - b'0')
    else if leb b'A' ch && leb ch b'F'
    then some (ch - b'A' + 10)
    else if leb b'a' ch && leb ch b'f'
    then some (ch - b'a' + 10)
    else none

unfoldable pub is_plain : ℕ → Bool
is_plain ch =
    (leb b'A' ch && leb ch b'Z')
    || (leb b'a' ch && leb ch b'z')
    || (leb b'0' ch && leb ch b'9')
    || ch == b'~'
    || ch == b'-'
    || ch == b'.'
    || ch == b'_'

-- The strings so far, and whether `current` is the value.
pub record Part : Type 0 where
  pub field : Name
  pub value : Name
  pub in_value : Bool

abbrev pub empty_part : Part
empty_part = record { field = []; value = []; in_value = false }

-- `current->push_back`.
unfoldable pub push : Part → Name → Part
push p n =
    if p.in_value then record p { value = p.value ++ n } else record p { field = p.field ++ n }

-- The body of the loop: by how much more `i` moves on, and the strings after it.
unfoldable pub parse_char : Part → ℕ → List ℕ → Option (ℕ × Part)
unfolding is_plain push
parse_char p ch rest =
    if ch == b'='
    then (if p.in_value then none else some (0, record p { in_value = true }))
    else if is_plain ch
    then some (0, push p (ch ∷ []))
    else if ch == b'+'
    then some (0, push p (b' ' ∷ []))
    else if ch == b'%'
    then (do
      a ← get_elem? rest 0
      b ← get_elem? rest 1
      high ← to_hex a
      low ← to_hex b
      some (2, push p ((high * 16 + low) ∷ [])))
    else none

-- The loop; `skip` characters are passed over.
unfoldable pub parse_chars : List ℕ → ℕ → Part → Option Part
parse_chars [] skip p = some p
parse_chars (ch ∷ rest) (suc skip) p = parse_chars rest skip p
parse_chars (ch ∷ rest) zero p = elim (parse_char p ch rest) [
  | none ↦ none
  | some r ↦ parse_chars rest r.0 r.1
]

-- `none` is a return of false.
unfoldable pub parse_query_string_part : List ℕ → Option (Name × Name)
parse_query_string_part text = do
  p ← parse_chars text 0 empty_part
  (if p.in_value then some (p.field, p.value) else none)

-- Parts that do not parse are passed over; a field that comes again replaces the value.
unfoldable pub query_fields : List (List ℕ) → NameMap Name → NameMap Name
query_fields [] fields = fields
query_fields (part ∷ parts) fields =
    query_fields parts
      (elim (parse_query_string_part part) [ none ↦ fields | some r ↦ put_name r.0 r.1 fields ])

-- What the code calls of other libraries: `absl::StrSplit` at '&' without empty parts, and `dump` of
-- nlohmann's json, which throws on texts that are not UTF-8.
pub record TextLib : Type 0 where
  pub split : List ℕ → List (List ℕ)
  pub dump : NameMap Name → Option (List ℕ)

abbrev pub query_string_to_json : TextLib → List ℕ → Option (List ℕ)
query_string_to_json lib qs = lib.dump (query_fields (lib.split qs) [])
