-- ===== src/Utils/Framing/Tests.antt =====
-- Runs of `ReadMessages` with messages of three bytes.
use nightcore.Prelude.{ℕ, ◌≡◌, refl, arith, none, List, [], ◌∷◌, replicate, length-replicate}
use nightcore.Prelude.Result.{Returns}
use nightcore.Utils.Buffer.{AppendableBuffer, to_span}
use nightcore.Utils.Framing.{read_chunks}
use nightcore.Utils.Framing.Stream.{IsPartial, read_chunks_split}

abbrev malloc : ℕ → List ℕ
malloc n = replicate n 205

-- Two bytes of a message came before.
abbrev partial : AppendableBuffer
partial = record { buf_size = 48; pos = 2; heap = none; inline_buf = 7 ∷ 8 ∷ replicate 46 0 }

partial-IsPartial : IsPartial 3 partial
partial-IsPartial = record {
  valid = record {
    sized = refl;
    inline_sized = refl;
    within = omega arith;
    nonempty = omega arith;
  };
  short = omega arith;
}

read_chunks_split_example :
    Returns (read_chunks malloc 3 partial ((1 ∷ []) ∷ (2 ∷ 3 ∷ []) ∷ (4 ∷ []) ∷ [])) (λ r.
      Returns
        (read_chunks malloc 3 partial ((1 ∷ 2 ∷ 3 ∷ 4 ∷ []) ∷ []))
        (λ q. (r.0 ≡ q.0) × (to_span r.1 ≡ to_span q.1)))
read_chunks_split_example =
    read_chunks_split malloc (λ n. length-replicate n 205) 3 partial partial
      ((1 ∷ []) ∷ (2 ∷ 3 ∷ []) ∷ (4 ∷ []) ∷ []) ((1 ∷ 2 ∷ 3 ∷ 4 ∷ []) ∷ []) partial-IsPartial
      partial-IsPartial refl refl
