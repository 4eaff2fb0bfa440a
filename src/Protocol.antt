-- ===== src/Protocol.antt =====
-- src/common/protocol.h: the ids of a function call and the constants of the wire format.
pub mod Message
pub mod Gateway
pub mod Bits
pub mod RoundTrip
mod Tests
use nightcore.Prelude.{ℕ, ◌+◌, ◌-◌, ◌*◌, ◌/◌, ◌%◌, ◌^◌, ◌<◌}

abbrev pub func_id_bits : ℕ
func_id_bits = 8

abbrev pub method_id_bits : ℕ
method_id_bits = 6

abbrev pub client_id_bits : ℕ
client_id_bits = 14

abbrev pub max_func_id : ℕ
max_func_id = 2 ^ func_id_bits - 1

abbrev pub max_method_id : ℕ
max_method_id = 2 ^ method_id_bits - 1

abbrev pub max_client_id : ℕ
max_client_id = 2 ^ client_id_bits - 1

-- The bit fields of the packed struct, lowest first: 8, 6, 14, 32 and 4 bits of one 64-bit word.
pub record FuncCall : Type 0 where
  pub func_id : ℕ
  pub method_id : ℕ
  pub client_id : ℕ
  pub call_id : ℕ
  pub padding : ℕ

-- The other member of the union: the word that the fields lie in.
unfoldable pub full_call_id : FuncCall → ℕ
full_call_id c =
    c.func_id + 2 ^ 8 * c.method_id + 2 ^ 14 * c.client_id + 2 ^ 28 * c.call_id + 2 ^ 60 * c.padding

-- A write of `full_call_id`, read back by the fields.
unfoldable pub of_full_call_id : ℕ → FuncCall
of_full_call_id w = record {
  func_id = w % 2 ^ 8;
  method_id = w / 2 ^ 8 % 2 ^ 6;
  client_id = w / 2 ^ 14 % 2 ^ 14;
  call_id = w / 2 ^ 28 % 2 ^ 32;
  padding = w / 2 ^ 60 % 2 ^ 4;
}

abbrev pub invalid_func_call : FuncCall
invalid_func_call = record { func_id = 0; method_id = 0; client_id = 0; call_id = 0; padding = 0 }

-- A store to a bit field keeps its low bits.
unfoldable pub new_func_call_with_method : ℕ → ℕ → ℕ → ℕ → FuncCall
new_func_call_with_method func_id method_id client_id call_id = record {
  func_id = func_id % 2 ^ func_id_bits;
  method_id = method_id % 2 ^ method_id_bits;
  client_id = client_id % 2 ^ client_id_bits;
  call_id = call_id % 2 ^ 32;
  padding = 0;
}

unfoldable pub new_func_call : ℕ → ℕ → ℕ → FuncCall
new_func_call func_id client_id call_id = record {
  func_id = func_id % 2 ^ func_id_bits;
  method_id = 0;
  client_id = client_id % 2 ^ client_id_bits;
  call_id = call_id % 2 ^ 32;
  padding = 0;
}

-- Every field fits its bits, and the padding is clear, as all the code leaves it.
pub record IsFuncCall (c : FuncCall) : Type 0 where
  pub func_fits : c.func_id < 2 ^ 8
  pub method_fits : c.method_id < 2 ^ 6
  pub client_fits : c.client_id < 2 ^ 14
  pub call_fits : c.call_id < 2 ^ 32
  pub clear : c.padding < 1
