-- ===== src/Gateway/Http/Decoding.antt =====
-- src/gateway/http_connection.cpp: the query strings that parse are the form encodings.
use nightcore.Prelude.Names.{Name}
use nightcore.Prelude.{
  ℕ, zero, suc, ◌+◌, ◌*◌, ◌≡◌, ◌↔◌, refl, sym, ap, ◌∙◌, arith, true, false, Bool-cases, Option,
  Option-cases, none, some, inl, inr, List, [], ◌∷◌, ◌++◌, ◌==◌, get_elem?, drop, append_assoc, ap₂,
  subst, ==_iff,
}
use nightcore.Gateway.Http.Query.{
  Part, to_hex, is_plain, push, parse_char, parse_chars, parse_query_string_part, empty_part,
}
use nightcore.Gateway.Http.Encoding.{
  Encodes, is_plain_iff, to_hex_iff, nothing, plain, space, escaped, push-push, push-nil,
  push-in_value, plain_char, space_char, escaped_char, equals_char, parse-Encodes,
}

-- What a character that is accepted is.
data CharCases (p : Part) (ch : ℕ) (rest : List ℕ) (r : ℕ × Part) : Type 0 where
  letter :
      (c : ℕ) (before : List ℕ)
      → r.1 ≡ push p (c ∷ [])
      → ch ∷ rest ≡ before ++ drop r.0 rest
      → ((bytes : List ℕ) (text : Name) → Encodes bytes text → Encodes (before ++ bytes) (c ∷ text))
      → CharCases p ch rest r
  equals_sign :
      ch ≡ b'=' → p.in_value ≡ false → r ≡ (0, record p { in_value = true }) → CharCases p ch rest r

two_more :
    (rest : List ℕ) (a b : ℕ)
    → get_elem? rest 0 ≡ some a
    → get_elem? rest 1 ≡ some b
    → rest ≡ a ∷ b ∷ drop 2 rest
two_more [] a b h k = cc
two_more (x ∷ []) a b h k = cc
two_more (x ∷ y ∷ rest) a b h k = ground arith

escape_inverse :
    (p : Part) (rest : List ℕ) (r : ℕ × Part)
    → parse_char p b'%' rest ≡ some r
    → (a b high low : ℕ) × (rest ≡ a ∷ b ∷ drop 2 rest)
      × (to_hex a ≡ some high)
      × (to_hex b ≡ some low)
      × (r ≡ (2, push p ((high * 16 + low) ∷ [])))
unfolding parse_char
escape_inverse p [] r h = cc h
escape_inverse p (a ∷ []) r h = cc h
escape_inverse p (a ∷ b ∷ rest) r h = elim (Option-cases (to_hex a)) [
  | inl e ↦ ground (arith, e, h)
  | inr (high, e) ↦ elim (Option-cases (to_hex b)) [
    | inl f ↦ ground (arith, e, f, h)
    | inr (low, f) ↦ (a, b, high, low, refl, e, f, cc (escaped_char p a b high low rest e f, h))
  ]
]

equals_inverse :
    (p : Part) (rest : List ℕ) (r : ℕ × Part)
    → parse_char p b'=' rest ≡ some r
    → (p.in_value ≡ false) × (r ≡ (0, record p { in_value = true }))
unfolding parse_char
equals_inverse p rest r h = elim (Bool-cases p.in_value) [
  | inl on ↦ cc (h, on)
  | inr off ↦ (off, cc (equals_char p rest off, h))
]

-- Any other character is refused.
other_char :
    (p : Part) (ch : ℕ) (rest : List ℕ)
    → (ch == b'=') ≡ false
    → is_plain ch ≡ false
    → (ch == b'+') ≡ false
    → (ch == b'%') ≡ false
    → parse_char p ch rest ≡ none
unfolding parse_char is_plain
other_char p ch rest e f g h = ground arith

char_cases :
    (p : Part) (ch : ℕ) (rest : List ℕ) (r : ℕ × Part)
    → parse_char p ch rest ≡ some r
    → CharCases p ch rest r
char_cases p ch rest r h = elim (Bool-cases (ch == b'=')) [
  | inl yes_e ↦
      let e = (==_iff ch b'=').0 yes_e in
      let (off, same) = equals_inverse p rest r (subst (λ c. parse_char p c rest ≡ some r) e h) in
      equals_sign e off same
  | inr not_e ↦ elim (Bool-cases (is_plain ch)) [
    | inl kept ↦
        let e : r ≡ (0, push p (ch ∷ [])) = cc (plain_char p ch rest kept, h) in
        letter ch (ch ∷ []) (ap (λ r. r.1) e) (ap (λ k. ch ∷ drop k rest) (ap (λ r. r.0) (sym e)))
          (λ bytes text t. plain ((is_plain_iff ch).0 kept) t)
    | inr not_p ↦ elim (Bool-cases (ch == b'+')) [
      | inl yes_s ↦
          let e = (==_iff ch b'+').0 yes_s in
          let k = subst (λ c. parse_char p c rest ≡ some r) e h in
          let f : r ≡ (0, push p (b' ' ∷ [])) = cc (space_char p rest, k) in
          letter b' ' (b'+' ∷ []) (ap (λ r. r.1) f)
            (ap₂ (λ c k. c ∷ drop k rest) e (ap (λ r. r.0) (sym f))) (λ bytes text t. space t)
      | inr not_s ↦ elim (Bool-cases (ch == b'%')) [
        | inl yes_x ↦
            let e = (==_iff ch b'%').0 yes_x in
            let (a, b, high, low, whole, x, y, f) =
              escape_inverse p rest r (subst (λ c. parse_char p c rest ≡ some r) e h) in
            letter (high * 16 + low) (b'%' ∷ a ∷ b ∷ []) (ap (λ r. r.1) f)
              (ap₂ ◌∷◌ e (whole ∙ ap (λ k. a ∷ b ∷ drop k rest) (ap (λ r. r.0) (sym f))))
              (λ bytes text t. escaped ((to_hex_iff a high).0 x) ((to_hex_iff b low).0 y) t)
        | inr not_x ↦ cc (other_char p ch rest not_e not_p not_s not_x, h)
      ]
    ]
  ]
]

-- What the loop has read from the bytes in front of it.
data Parsed (bytes : List ℕ) (p q : Part) : Type 0 where
  same_text : (text : Name) → Encodes bytes text → q ≡ push p text → Parsed bytes p q
  both_texts :
      (left right : List ℕ) (field value : Name)
      → p.in_value ≡ false
      → bytes ≡ left ++ b'=' ∷ right
      → Encodes left field
      → Encodes right value
      → q ≡ push (record (push p field) { in_value = true }) value
      → Parsed bytes p q

after_letter :
    {p p' q : Part} {whole rest : List ℕ} {c : ℕ} (before : List ℕ)
    → p' ≡ push p (c ∷ [])
    → whole ≡ before ++ rest
    → ((bytes : List ℕ) (text : Name) → Encodes bytes text → Encodes (before ++ bytes) (c ∷ text))
    → Parsed rest p' q
    → Parsed whole p q
after_letter {p} {p'} {q} {whole} {rest} {c} before e f encode (same_text text t done) =
    same_text (c ∷ text) (subst (λ w. Encodes w (c ∷ text)) (sym f) (encode rest text t))
      (done ∙ ap (λ o. push o text) e ∙ push-push p (c ∷ []) text)
after_letter {p} {p'} {q} {whole} {rest} {c} before e f encode
      (both_texts left right field value off split l r done) =
    both_texts (before ++ left) right (c ∷ field) value
      (sym (push-in_value p (c ∷ [])) ∙ ap (λ o. o.in_value) (sym e) ∙ off)
      (f ∙ ap (λ t. before ++ t) split ∙ sym (append_assoc before left (b'=' ∷ right)))
      (encode left field l) r
      (done
        ∙ ap (λ o. push (record o { in_value = true }) value)
            (ap (λ o. push o field) e ∙ push-push p (c ∷ []) field))

after_equals :
    {p q : Part} {rest : List ℕ}
    → p.in_value ≡ false
    → Parsed rest (record p { in_value = true }) q
    → Parsed (b'=' ∷ rest) p q
after_equals {p} {q} {rest} off (same_text text t done) =
    both_texts [] rest [] text off refl nothing t
      (done ∙ ap (λ o. push (record o { in_value = true }) text) (sym (push-nil p)))
after_equals off (both_texts left right field value on split l r done) = cc on

parse_chars-Parsed :
    (bytes : List ℕ) (skip : ℕ) (p q : Part)
    → parse_chars bytes skip p ≡ some q
    → Parsed (drop skip bytes) p q
unfolding parse_chars
parse_chars-Parsed [] zero p q h = same_text [] nothing (sym (push-nil p ∙ cc h))
parse_chars-Parsed [] (suc skip) p q h = same_text [] nothing (sym (push-nil p ∙ cc h))
parse_chars-Parsed (ch ∷ rest) (suc skip) p q h = parse_chars-Parsed rest skip p q h
parse_chars-Parsed (ch ∷ rest) zero p q h = elim (Option-cases (parse_char p ch rest)) [
  | inl stop ↦ cc (rw (stop, parse_chars) at h)
  | inr (r, go) ↦
      let k : parse_chars rest r.0 r.1 ≡ some q = rw (go, parse_chars) at h in
      let later = parse_chars-Parsed rest r.0 r.1 q k in
      elim (char_cases p ch rest r go) [
        | letter c before e whole encode ↦ after_letter before e whole encode later
        | equals_sign e off same ↦
            let turned = subst (λ r. Parsed (drop r.0 rest) r.1 q) same later in
            subst (λ c. Parsed (c ∷ rest) p q) (sym e) (after_equals off turned)
      ]
]

-- `text` is a field and a value, encoded, with `=` between them.
pub IsFormPart : List ℕ → Name → Name → Type 0
IsFormPart text field value =
    (left right : List ℕ) × (text ≡ left ++ b'=' ∷ right) × Encodes left field × Encodes right value

Parsed-IsFormPart :
    {text : List ℕ} {q : Part}
    → Parsed text empty_part q
    → q.in_value ≡ true
    → IsFormPart text q.field q.value
unfolding push IsFormPart
Parsed-IsFormPart (same_text t e done) on = cc (done, on)
Parsed-IsFormPart {text} {q} (both_texts left right field value off split l r done) on = (
  left,
  right,
  split,
  subst (Encodes left) (sym (ap (λ q. q.field) done)) l,
  subst (Encodes right) (sym (ap (λ q. q.value) done)) r,
)

read_back :
    (text : List ℕ) (field value : Name)
    → parse_query_string_part text ≡ some (field, value)
    → IsFormPart text field value
unfolding parse_query_string_part
read_back text field value h = elim (Option-cases (parse_chars text 0 empty_part)) [
  | inl stop ↦ cc (rw stop at h)
  | inr (q, go) ↦ elim (Bool-cases q.in_value) [
    | inl on ↦
        let found = Parsed-IsFormPart (parse_chars-Parsed text 0 empty_part q go) on in
        let e : ◌≡◌ {A = Option (Name × Name)} (some (q.field, q.value)) (some (field, value)) =
          ground (arith, go, on, h) in
        let f : q.field ≡ field = cc e in
        let g : q.value ≡ value = cc e in
        subst (λ v. IsFormPart text field v) g (subst (λ n. IsFormPart text n q.value) f found)
    | inr off ↦ ground (arith, go, off, h)
  ]
]

-- A part of a query string parses to a field and a value exactly when it is an encoding of the
-- field, an equals sign and an encoding of the value: the unreserved characters of RFC 3986 stand
-- for themselves, a plus for a space, and a percent sign with two hexadecimal digits, of either
-- case, for any byte.
pub parse_query_string_part_iff :
    (text : List ℕ) (field value : Name)
    → (parse_query_string_part text ≡ some (field, value)) ↔ IsFormPart text field value
unfolding IsFormPart
parse_query_string_part_iff text field value = (
  read_back text field value,
  λ found.
      subst (λ t. parse_query_string_part t ≡ some (field, value)) (sym found.2)
        (parse-Encodes found.3 found.4),
)
