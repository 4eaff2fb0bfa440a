-- ===== src/Utils/Buffer.antt =====
-- src/utils/appendable_buffer.h: `AppendableBuffer`, over explicit memory. `malloc n` is the memory
-- that the allocator gives, `n` bytes of any content.
pub mod Contents
mod Tests
use nightcore.Prelude.{
  ℕ, zero, suc, ◌+◌, ◌-◌, ◌*◌, ◌≤◌, ◌<◌, ◌≡◌, Bool, Option, none, some, List, [], ◌∷◌, ◌++◌, ◌==◌,
  ltb, leb, if◌then◌else◌, length, take, drop, replicate,
}
use nightcore.Prelude.Result.{Result, ok, ◌>>=◌, ◌>>◌, check}

abbrev pub inline_buffer_size : ℕ
inline_buffer_size = 48

-- `heap` is `none` where `buf_` points to `inline_buf_`.
pub record AppendableBuffer : Type 0 where
  pub buf_size : ℕ
  pub pos : ℕ
  pub heap : Option (List ℕ)
  pub inline_buf : List ℕ

-- The memory that `buf_` points to.
abbrev pub memory : AppendableBuffer → List ℕ
memory b = elim b.heap [ none ↦ b.inline_buf | some bytes ↦ bytes ]

abbrev pub set_memory : AppendableBuffer → List ℕ → AppendableBuffer
set_memory b bytes = elim b.heap [
  | none ↦ record b { inline_buf = bytes }
  | some _ ↦ record b { heap = some bytes }
]

-- `memcpy` of `bytes` to offset `i`.
unfoldable pub write_at : ℕ → List ℕ → List ℕ → List ℕ
write_at i bytes mem = take i mem ++ (bytes ++ drop (i + length bytes) mem)

-- The doubling loop of `AppendData`, on fuel. The code's `int` overflows once more than 2^30 bytes are
-- needed, which is not modelled.
unfoldable pub grow : ℕ → ℕ → ℕ → ℕ
grow zero need size = size
grow (suc fuel) need size =
    let rest = grow fuel need (size * 2) in if ltb size need then rest else size

abbrev pub to_span : AppendableBuffer → List ℕ
to_span b = take b.pos (memory b)

unfoldable pub reset : AppendableBuffer → AppendableBuffer
reset b = record b { pos = 0 }

-- `memmove` towards the front.
unfoldable pub consume_front : AppendableBuffer → ℕ → Result AppendableBuffer
consume_front b size = do
  check (leb size b.pos)
  let moved = set_memory b (write_at 0 (take (b.pos - size) (drop size (memory b))) (memory b))
  ok (
      if ltb size b.pos
      then record moved { pos = b.pos - size }
      else record b { pos = b.pos - size })

unfoldable pub swap : AppendableBuffer → AppendableBuffer → AppendableBuffer × AppendableBuffer
swap a b = elim a.heap [
  | some mine ↦ elim b.heap [
    | some other ↦ (
      record a { pos = b.pos; buf_size = b.buf_size; heap = some other },
      record b { pos = a.pos; buf_size = a.buf_size; heap = some mine },
    )
    | none ↦ (
      record a { pos = b.pos; buf_size = b.buf_size; heap = none; inline_buf = b.inline_buf },
      record b { pos = a.pos; buf_size = a.buf_size; heap = some mine },
    )
  ]
  | none ↦ elim b.heap [
    | some other ↦ (
      record a { pos = b.pos; buf_size = b.buf_size; heap = some other },
      record b { pos = a.pos; buf_size = a.buf_size; heap = none; inline_buf = a.inline_buf },
    )
    | none ↦ (
      record a { pos = b.pos; buf_size = b.buf_size; inline_buf = b.inline_buf },
      record b { pos = a.pos; buf_size = a.buf_size; inline_buf = a.inline_buf },
    )
  ]
]

module _ (malloc : ℕ → List ℕ) where
  unfoldable pub create : ℕ → AppendableBuffer
  create initial_size =
      if leb initial_size inline_buffer_size
      then record {
        buf_size = inline_buffer_size;
        pos = 0;
        heap = none;
        inline_buf = malloc inline_buffer_size;
      }
      else record {
        buf_size = initial_size;
        pos = 0;
        heap = some (malloc initial_size);
        inline_buf = malloc inline_buffer_size;
      }

  -- Memory for at least `need` bytes: the old one, or a larger one with the first `pos` bytes copied.
  unfoldable pub reserve : AppendableBuffer → ℕ → AppendableBuffer
  reserve b need =
      let size = grow need need b.buf_size in
      if ltb b.buf_size size
      then record b { buf_size = size; heap = some (write_at 0 (to_span b) (malloc size)) }
      else b

  unfoldable pub append_data : AppendableBuffer → List ℕ → AppendableBuffer
  append_data b bytes =
      let r = reserve b (b.pos + length bytes) in
      if length bytes == 0
      then b
      else record (set_memory r (write_at r.pos bytes (memory r))) { pos = r.pos + length bytes }

-- The representation invariant: the sizes are those of the memory, and `pos` lies in it.
pub record IsValid (b : AppendableBuffer) : Type 0 where
  pub sized : length (memory b) ≡ b.buf_size
  pub inline_sized : length b.inline_buf ≡ inline_buffer_size
  pub within : b.pos ≤ b.buf_size
  pub nonempty : 0 < b.buf_size
