-- ===== src/Utils/Framing.antt =====
-- src/utils/appendable_buffer.h: `ReadMessages`, which cuts a byte stream into messages of one size.
-- `msg_size` is `sizeof(T)`; the callback's calls are the list of the messages that it gets.
pub mod Stream
mod Tests
use nightcore.Prelude.{
  ℕ, zero, suc, ◌+◌, ◌-◌, ◌≤◌, Bool, List, [], ◌∷◌, ◌++◌, ltb, leb, ◌==◌, if◌then◌else◌, length,
  take, drop,
}
use nightcore.Prelude.Result.{Result, ok, err, ◌>>=◌, ◌>>◌, check, check_failed}
use nightcore.Utils.Buffer.{AppendableBuffer, to_span, append_data, reset}

module _ (malloc : ℕ → List ℕ) (msg_size : ℕ) where
  -- One round of the loop: the message, the buffer after `Reset`, the bytes left.
  unfoldable pub read_one : AppendableBuffer → List ℕ → Result (List ℕ × AppendableBuffer × List ℕ)
  read_one b bytes = do
    let copy_size = msg_size - b.pos
    let filled = append_data malloc b (take copy_size bytes)
    check (filled.pos == msg_size)
    ok (to_span filled, reset filled, drop copy_size bytes)

  -- The loop, on fuel, and the bytes kept behind it. Running out of fuel is a failed check.
  unfoldable pub read_loop :
      ℕ → AppendableBuffer → List ℕ → Result (List (List ℕ) × AppendableBuffer)
  read_loop zero b bytes = err check_failed
  read_loop (suc fuel) b bytes =
      let rest = (do
        (message, b', left) ← read_one b bytes
        (messages, last) ← read_loop fuel b' left
        ok (message ∷ messages, last)) in
      if leb msg_size (length bytes + b.pos)
      then rest
      else ok ([], (if ltb 0 (length bytes) then append_data malloc b bytes else b))

  -- Each round takes at least one byte, so there are at most as many rounds as bytes.
  unfoldable pub read_messages :
      AppendableBuffer → List ℕ → Result (List (List ℕ) × AppendableBuffer)
  read_messages b bytes = do check (ltb b.pos msg_size); read_loop (suc (length bytes)) b bytes

  -- What arrives in several reads, one `ReadMessages` for each.
  unfoldable pub read_chunks :
      AppendableBuffer → List (List ℕ) → Result (List (List ℕ) × AppendableBuffer)
  read_chunks b [] = ok ([], b)
  read_chunks b (bytes ∷ more) = do
    (messages, b') ← read_messages b bytes
    (others, last) ← read_chunks b' more
    ok (messages ++ others, last)
