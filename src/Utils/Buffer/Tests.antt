-- ===== src/Utils/Buffer/Tests.antt =====
-- Runs of the buffer of src/utils/appendable_buffer.h, inline and on the heap.
use nightcore.Prelude.{ℕ, ◌≡◌, refl, arith, none, some, List, [], ◌∷◌, replicate}
use nightcore.Utils.Buffer.{
  AppendableBuffer, IsValid, to_span, reserve, grow, write_at, append_data,
}

-- An allocator that fills its memory with one byte.
abbrev malloc : ℕ → List ℕ
malloc n = replicate n 205

abbrev inline : AppendableBuffer
inline = record { buf_size = 48; pos = 2; heap = none; inline_buf = 7 ∷ 8 ∷ replicate 46 0 }

abbrev on_heap : AppendableBuffer
on_heap = record {
  buf_size = 5;
  pos = 4;
  heap = some (1 ∷ 2 ∷ 3 ∷ 4 ∷ 0 ∷ []);
  inline_buf = replicate 48 0;
}

inline-IsValid : IsValid inline
inline-IsValid = record {
  sized = refl;
  inline_sized = refl;
  within = omega arith;
  nonempty = omega arith;
}

on_heap-IsValid : IsValid on_heap
on_heap-IsValid = record {
  sized = refl;
  inline_sized = refl;
  within = omega arith;
  nonempty = omega arith;
}

appended_on_heap : to_span (append_data malloc on_heap (9 ∷ 9 ∷ [])) ≡ 1 ∷ 2 ∷ 3 ∷ 4 ∷ 9 ∷ 9 ∷ []
unfolding append_data reserve grow write_at
appended_on_heap = refl
