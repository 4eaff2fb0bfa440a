-- ===== src/Gateway/Http/Encoding.antt =====
-- src/gateway/http_connection.cpp: form encodings parse to what they encode.
use nightcore.Prelude.Names.{Name}
use nightcore.Prelude.{
  ℕ, ◌+◌, ◌*◌, ◌≤◌, ◌≡◌, ◌⊎◌, ◌↔◌, refl, ap, ◌∙◌, arith, true, false, some, List, [], ◌∷◌, ◌++◌,
  append_assoc, append-nil,
}
use nightcore.Gateway.Http.Query.{
  Part, to_hex, is_plain, push, parse_char, parse_chars, parse_query_string_part, empty_part,
}

-- The unreserved characters of RFC 3986.
abbrev pub IsUnreserved : ℕ → Type 0
IsUnreserved ch =
    ((65 ≤ ch) × (ch ≤ 90))
    ⊎ ((97 ≤ ch) × (ch ≤ 122))
    ⊎ ((48 ≤ ch) × (ch ≤ 57))
    ⊎ (ch ≡ b'-')
    ⊎ (ch ≡ b'.')
    ⊎ (ch ≡ b'_')
    ⊎ (ch ≡ b'~')

-- The hexadecimal digits with their values, as ASCII has them: '0' to '9', 'A' to 'F', 'a' to 'f'.
abbrev pub IsHexDigit : ℕ → ℕ → Type 0
IsHexDigit ch value =
    ((value ≤ 9) × (ch ≡ 48 + value))
    ⊎ ((10 ≤ value) × (value ≤ 15) × (ch ≡ 55 + value))
    ⊎ ((10 ≤ value) × (value ≤ 15) × (ch ≡ 87 + value))

-- The bytes that stand for a text: unreserved characters for themselves, `+` for a space, and two
-- hexadecimal digits behind `%` for any byte.
pub data Encodes : List ℕ → Name → Type 0 where
  nothing : Encodes [] []
  plain :
      {ch : ℕ} {bytes text : List ℕ}
      → IsUnreserved ch
      → Encodes bytes text
      → Encodes (ch ∷ bytes) (ch ∷ text)
  space : {bytes text : List ℕ} → Encodes bytes text → Encodes (b'+' ∷ bytes) (b' ' ∷ text)
  escaped :
      {a b high low : ℕ} {bytes text : List ℕ}
      → IsHexDigit a high
      → IsHexDigit b low
      → Encodes bytes text
      → Encodes (b'%' ∷ a ∷ b ∷ bytes) ((high * 16 + low) ∷ text)

pub is_plain_iff : (ch : ℕ) → (is_plain ch ≡ true) ↔ IsUnreserved ch
unfolding is_plain
is_plain_iff ch = (λ h. ground (arith, h), λ h. ground (arith, h))

pub to_hex_iff : (ch value : ℕ) → (to_hex ch ≡ some value) ↔ IsHexDigit ch value
unfolding to_hex
to_hex_iff ch value = (λ h. ground (arith, h), λ h. ground (arith, h))

pub push-push : (p : Part) (m n : Name) → push (push p m) n ≡ push p (m ++ n)
unfolding push
push-push p m n = ground (arith, append_assoc p.value m n, append_assoc p.field m n)

pub push-nil : (p : Part) → push p [] ≡ p
unfolding push
push-nil p = ground (arith, append-nil p.value, append-nil p.field)

pub push-in_value : (p : Part) (n : Name) → (push p n).in_value ≡ p.in_value
unfolding push
push-in_value p n = ground arith

pub plain_char :
    (p : Part) (ch : ℕ) (rest : List ℕ)
    → is_plain ch ≡ true
    → parse_char p ch rest ≡ some (0, push p (ch ∷ []))
unfolding parse_char is_plain
plain_char p ch rest h = ground arith

pub space_char : (p : Part) (rest : List ℕ) → parse_char p b'+' rest ≡ some (0, push p (b' ' ∷ []))
unfolding parse_char
space_char p rest = refl

pub escaped_char :
    (p : Part) (a b high low : ℕ) (rest : List ℕ)
    → to_hex a ≡ some high
    → to_hex b ≡ some low
    → parse_char p b'%' (a ∷ b ∷ rest) ≡ some (2, push p ((high * 16 + low) ∷ []))
unfolding parse_char
escaped_char p a b high low rest h l = rw (h, l) refl

-- Behind an encoding, its text is pushed.
parse_chars-Encodes :
    {bytes text : List ℕ} (p : Part) (rest : List ℕ)
    → Encodes bytes text
    → parse_chars (bytes ++ rest) 0 p ≡ parse_chars rest 0 (push p text)
unfolding parse_chars
parse_chars-Encodes p rest nothing = rw (push-nil p) refl
parse_chars-Encodes p rest (plain {ch} {bytes} {text} h e) =
    rw (plain_char p ch (bytes ++ rest) ((is_plain_iff ch).1 h), parse_chars)
      (parse_chars-Encodes (push p (ch ∷ [])) rest e
        ∙ ap (parse_chars rest 0) (push-push p (ch ∷ []) text))
parse_chars-Encodes p rest (space {bytes} {text} e) =
    rw (space_char p (bytes ++ rest), parse_chars)
      (parse_chars-Encodes (push p (b' ' ∷ [])) rest e
        ∙ ap (parse_chars rest 0) (push-push p (b' ' ∷ []) text))
parse_chars-Encodes p rest (escaped {a} {b} {high} {low} {bytes} {text} h l e) =
    rw
      (
        escaped_char p a b high low (bytes ++ rest) ((to_hex_iff a high).1 h)
            ((to_hex_iff b low).1 l),
        parse_chars,
      )
      (parse_chars-Encodes (push p ((high * 16 + low) ∷ [])) rest e
        ∙ ap (parse_chars rest 0) (push-push p ((high * 16 + low) ∷ []) text))

pub equals_char :
    (p : Part) (rest : List ℕ)
    → p.in_value ≡ false
    → parse_char p b'=' rest ≡ some (0, record p { in_value = true })
unfolding parse_char
equals_char p rest h = simp h

pub parse-Encodes :
    {left right field value : List ℕ}
    → Encodes left field
    → Encodes right value
    → parse_query_string_part (left ++ b'=' ∷ right) ≡ some (field, value)
unfolding parse_query_string_part push parse_chars
parse-Encodes {left} {right} {field} {value} l r =
    let p = push empty_part field in
    let q = record p { in_value = true } in
    let first = parse_chars-Encodes empty_part (b'=' ∷ right) l in
    let second : parse_chars right 0 q ≡ some (push q value) =
      rw (← append-nil right) (parse_chars-Encodes q [] r) in
    rw (first, equals_char p right refl, parse_chars, second) refl
