-- ===== src/Utils/Buffer/Contents.antt =====
-- src/utils/appendable_buffer.h: a buffer is the list of the bytes that were appended to it.
use nightcore.Prelude.{
  ℕ, zero, suc, ◌+◌, ◌-◌, ◌*◌, ◌^◌, ◌≤◌, ◌<◌, ◌≡◌, refl, sym, ap, ◌∙◌, arith, List, [], ◌∷◌, ◌++◌,
  length, take, drop, length-append, length-take, length-drop, take-append_exact, append-nil,
  append_assoc, drop_all,
}
use nightcore.Prelude.Result.{Returns}
use nightcore.Utils.Buffer.{
  AppendableBuffer, IsValid, memory, set_memory, write_at, grow, to_span, consume_front, swap,
  create, reserve, append_data,
}

-- With a positive size and fuel for `need` rounds the doubling loop ends with room for `need` bytes.
pub le-grow : (fuel need size : ℕ) → 0 < size → need ≤ size + fuel → need ≤ grow fuel need size
unfolding grow
le-grow zero need size p h = omega arith
le-grow (suc fuel) need size p h = ground (arith, le-grow fuel need (size * 2))

-- It never shrinks.
pub le-grow_size : (fuel need size : ℕ) → size ≤ grow fuel need size
unfolding grow
le-grow_size zero need size = omega arith
le-grow_size (suc fuel) need size = ground (arith, le-grow_size fuel need (size * 2))

-- The doubling loop does not overshoot: a bound on the old size and on twice the need, less one,
-- bounds the new size, whatever the fuel.
pub grow_bound : (fuel need size m : ℕ) → size ≤ m → need * 2 ≤ m + 1 → grow fuel need size ≤ m
unfolding grow
grow_bound zero need size m p h = p
grow_bound (suc fuel) need size m p h = ground (arith, grow_bound fuel need (size * 2) m)

pub length-write_at :
    (i : ℕ) (bytes mem : List ℕ)
    → i + length bytes ≤ length mem
    → length (write_at i bytes mem) ≡ length mem
unfolding write_at
length-write_at i bytes mem h = omega (
  arith,
  length-append (take i mem) (bytes ++ drop (i + length bytes) mem),
  length-append bytes (drop (i + length bytes) mem),
  length-take i mem,
  length-drop (i + length bytes) mem,
)

pub take-write_at :
    (i : ℕ) (bytes mem : List ℕ)
    → i + length bytes ≤ length mem
    → take (i + length bytes) (write_at i bytes mem) ≡ take i mem ++ bytes
unfolding write_at
take-write_at i bytes mem h =
    ap (λ l. take (i + length bytes) l)
      (sym (append_assoc (take i mem) bytes (drop (i + length bytes) mem)))
    ∙ ap (λ n. take n ((take i mem ++ bytes) ++ drop (i + length bytes) mem))
        (omega (arith, length-append (take i mem) bytes, length-take i mem))
    ∙ take-append_exact (take i mem ++ bytes) (drop (i + length bytes) mem)

-- The bytes written at the front are the first ones.
take-write_front :
    (n : ℕ) (bytes mem : List ℕ)
    → length bytes ≡ n
    → n ≤ length mem
    → take n (write_at 0 bytes mem) ≡ bytes
take-write_front n bytes mem e h =
    ap (λ k. take k (write_at 0 bytes mem)) (omega (arith, e))
    ∙ take-write_at 0 bytes mem (omega (arith, e))

take-nil : (k : ℕ) → take {A = ℕ} k [] ≡ []
take-nil zero = refl
take-nil (suc k) = refl

drop-take : (n p : ℕ) (mem : List ℕ) → drop n (take p mem) ≡ take (p - n) (drop n mem)
drop-take zero p mem = ap (λ k. take k mem) (omega arith)
drop-take (suc n) zero mem =
    let none_left : 0 - suc n ≡ 0 = omega arith in
    ap (λ k. take k (drop (suc n) mem)) (sym none_left)
drop-take (suc n) (suc p) [] = sym (take-nil (suc p - suc n))
drop-take (suc n) (suc p) (x ∷ mem) =
    drop-take n p mem ∙ ap (λ k. take k (drop n mem)) (omega arith)

memory-set_memory : (b : AppendableBuffer) (m : List ℕ) → memory (set_memory b m) ≡ m
memory-set_memory b m = ground arith

-- Swap exchanges the contents of two valid buffers, whichever of the two is inline, and keeps both
-- valid.
pub swap_lem :
    (a b : AppendableBuffer)
    → IsValid a
    → IsValid b
    → (to_span (swap a b).0 ≡ to_span b)
      × (to_span (swap a b).1 ≡ to_span a)
      × IsValid (swap a b).0
      × IsValid (swap a b).1
unfolding swap
swap_lem a b va vb = (ground arith, ground arith, ground arith, ground arith)

pub length-to_span : (b : AppendableBuffer) → IsValid b → length (to_span b) ≡ b.pos
length-to_span b v = omega (arith, length-take b.pos (memory b), v.sized, v.within)

-- Removing n bytes from the front of a valid buffer leaves the rest, if there are as many, and
-- keeps it valid and its size.
pub consume_front_lem :
    (b : AppendableBuffer) (n : ℕ)
    → IsValid b
    → n ≤ b.pos
    → Returns
        (consume_front b n)
        (λ c. (to_span c ≡ drop n (to_span b)) × IsValid c × (c.buf_size ≡ b.buf_size))
unfolding consume_front
consume_front_lem b n v h = ground (
  arith,
  drop-take n b.pos (memory b),
  length-drop n (memory b),
  length-take (b.pos - n) (drop n (memory b)),
  take-write_front (b.pos - n) (take (b.pos - n) (drop n (memory b))) (memory b),
  length-write_at 0 (take (b.pos - n) (drop n (memory b))) (memory b),
  drop_all n (to_span b),
  length-to_span b v,
)

append-empty : (xs bytes : List ℕ) → length bytes ≡ 0 → xs ++ bytes ≡ xs
append-empty xs [] h = append-nil xs
append-empty xs (x ∷ bytes) h = absurd (omega (arith, h))

module _ (malloc : ℕ → List ℕ) (malloc_size : (n : ℕ) → length (malloc n) ≡ n) where
  -- A new buffer is empty and valid; it uses the inline memory up to 48 bytes.
  pub create_lem :
      (n : ℕ)
      → (to_span (create malloc n) ≡ [])
        × IsValid (create malloc n)
        × (n ≤ (create malloc n).buf_size)
  unfolding create
  create_lem n = (ground arith, ground (arith, malloc_size n, malloc_size 48), ground arith)

  -- After `reserve` the contents are the same, and there is the room that was asked for.
  reserve_lem :
      (b : AppendableBuffer) (need : ℕ)
      → IsValid b
      → (to_span (reserve malloc b need) ≡ to_span b)
        × ((reserve malloc b need).pos ≡ b.pos)
        × IsValid (reserve malloc b need)
        × (need ≤ (reserve malloc b need).buf_size)
  unfolding reserve
  reserve_lem b need v =
      let size = grow need need b.buf_size in
      let copied = length-to_span b v in
      let fresh = malloc_size size in
      let written = take-write_front b.pos (to_span b) (malloc size) in
      let sized = length-write_at 0 (to_span b) (malloc size) in
      let larger = le-grow_size need need b.buf_size in
      let enough = le-grow need need b.buf_size v.nonempty (omega arith) in
      (ground arith, ground arith, ground arith, ground arith)

  -- With an allocator that gives blocks of the right size, appending extends the contents of a
  -- valid buffer by the bytes, and keeps it valid, whether or not it has to grow; a call with no
  -- bytes changes nothing.
  pub append_data_lem :
      (b : AppendableBuffer) (bytes : List ℕ)
      → IsValid b
      → (to_span (append_data malloc b bytes) ≡ to_span b ++ bytes)
        × IsValid (append_data malloc b bytes)
  unfolding append_data
  append_data_lem b bytes v =
      let r = reserve malloc b (b.pos + length bytes) in
      let reserved = reserve_lem b (b.pos + length bytes) v in
      let sized = reserved.2.sized in
      let written = take-write_at r.pos bytes (memory r) in
      let same_size = length-write_at r.pos bytes (memory r) in
      let empty = append-empty (to_span b) bytes in (ground arith, ground arith)

  -- Up to 2^30 bytes, the size is an `int`, and so is each that the doubling goes through, as it only
  -- grows.
  pub append_data-lt :
      (b : AppendableBuffer) (bytes : List ℕ)
      → b.buf_size < 2 ^ 31
      → b.pos + length bytes ≤ 2 ^ 30
      → (append_data malloc b bytes).buf_size < 2 ^ 31
  unfolding append_data reserve
  append_data-lt b bytes small fits =
      let need = b.pos + length bytes in
      let bound : grow need need b.buf_size ≤ 2 ^ 31 - 1 =
        grow_bound need need b.buf_size (2 ^ 31 - 1) (omega arith) (omega arith) in
      ground (arith, bound, small)
