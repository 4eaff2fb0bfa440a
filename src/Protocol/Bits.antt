-- ===== src/Protocol/Bits.antt =====
-- The packed layout of `FuncCall` in src/common/protocol.h: the word and its fields.
use nightcore.Prelude.{ℕ, ◌^◌, ◌<◌, ◌≡◌, arith}
use nightcore.Protocol.{
  FuncCall, IsFuncCall, full_call_id, of_full_call_id, new_func_call, new_func_call_with_method,
}

pub full_call_id-lt : (c : FuncCall) → IsFuncCall c → full_call_id c < 2 ^ 60
unfolding full_call_id
full_call_id-lt c h = omega arith

-- A call with its fields in range is read back from its 64-bit word.
pub of_full_call_id-full_call_id :
    (c : FuncCall) → IsFuncCall c → of_full_call_id (full_call_id c) ≡ c
unfolding full_call_id of_full_call_id
of_full_call_id-full_call_id c h = ground arith

-- A word below 2^64 is given back by the fields that are read from it.
pub full_call_id-of_full_call_id : (w : ℕ) → w < 2 ^ 64 → full_call_id (of_full_call_id w) ≡ w
unfolding full_call_id of_full_call_id
full_call_id-of_full_call_id w h = omega arith

pub new_func_call_with_method-IsFuncCall :
    (f m c i : ℕ) → IsFuncCall (new_func_call_with_method f m c i)
unfolding new_func_call_with_method
new_func_call_with_method-IsFuncCall f m c i = omega arith

pub new_func_call-IsFuncCall : (f c i : ℕ) → IsFuncCall (new_func_call f c i)
unfolding new_func_call
new_func_call-IsFuncCall f c i = omega arith
