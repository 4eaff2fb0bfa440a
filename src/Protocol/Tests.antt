-- ===== src/Protocol/Tests.antt =====
-- Runs of the message code of src/common/protocol.h on concrete calls.
use nightcore.Prelude.{◌≡◌, refl, arith, [], ◌∷◌}
use nightcore.Protocol.{FuncCall, IsFuncCall, full_call_id}
use nightcore.Protocol.Message.{Message, code, dispatch_func_call, empty_message}

abbrev call : FuncCall
call = record { func_id = 7; method_id = 3; client_id = 260; call_id = 99; padding = 0 }

abbrev parent : FuncCall
parent = record { func_id = 2; method_id = 0; client_id = 0; call_id = 98; padding = 0 }

call-IsFuncCall : IsFuncCall call
call-IsFuncCall = omega arith

parent-IsFuncCall : IsFuncCall parent
parent-IsFuncCall = omega arith

word_of_call : full_call_id call ≡ 26579370759
unfolding full_call_id
word_of_call = refl

abbrev holding : Message
holding = record empty_message {
  message_type = code dispatch_func_call;
  inline_data = 9 ∷ 8 ∷ 7 ∷ [];
}
