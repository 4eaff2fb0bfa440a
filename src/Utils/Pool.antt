-- ===== src/Utils/Pool.antt =====
-- src/utils/object_pool.h and src/utils/buffer_pool.h: pools that lend objects, respectively buffers
-- of one size. An object is named by how many were made before it; `make` and `new` give memory that
-- no other object has. The back of the vector of free objects is the head of the list.
pub mod Lending
mod Tests
use nightcore.Prelude.{ℕ, suc, List, [], ◌∷◌, ◌==◌}
use nightcore.Prelude.Result.{Result, ok, ◌>>=◌, ◌>>◌, check}

-- `objs` is the number of objects that there are.
pub record Pool : Type 0 where
  pub objs : ℕ
  pub free_objs : List ℕ

abbrev pub empty_pool : Pool
empty_pool = record { objs = 0; free_objs = [] }

abbrev take_back : ℕ → List ℕ → ℕ × Pool
take_back objs [] = (objs, record { objs = suc objs; free_objs = [] })
take_back objs (x ∷ xs) = (x, record { objs = objs; free_objs = xs })

unfoldable pub get : Pool → ℕ × Pool
get p = take_back p.objs p.free_objs

unfoldable pub give_back : ℕ → Pool → Pool
give_back x p = record p { free_objs = x ∷ p.free_objs }

pub record BufferPool : Type 0 where
  pub buffer_size : ℕ
  pub buffers : Pool

-- A buffer, its size, and the pool after it is lent.
unfoldable pub get_buffer : BufferPool → ℕ × ℕ × BufferPool
unfolding get
get_buffer p = let (x, q) = get p.buffers in (x, p.buffer_size, record p { buffers = q })

unfoldable pub give_back_buffer : ℕ → BufferPool → BufferPool
unfolding give_back
give_back_buffer x p = record p { buffers = give_back x p.buffers }

-- `Return` of a `uv_buf_t`, whose length must still be the size.
unfoldable pub give_back_uv_buf : ℕ → ℕ → BufferPool → Result BufferPool
unfolding give_back_buffer
give_back_uv_buf x len p = do check (len == p.buffer_size); ok (give_back_buffer x p)
