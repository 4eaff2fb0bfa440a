-- ===== src/Worker/FuncWorker/Stuck.antt =====
-- src/worker/v1/func_worker.cpp: without pipes, a worker whose output in shared memory is missing.
use nightcore.Prelude.{suc, ◌≡◌, true, false, none, some, [], ◌∷◌, ◌++◌}
use nightcore.Prelude.Int.{pos, ltb_ℤ}
use nightcore.Prelude.Map.{lookup}
use nightcore.Prelude.Result.{ok}
use nightcore.Protocol.{FuncCall, full_call_id}
use nightcore.Protocol.Message.{Message, code, func_call_complete, get_func_call_from_message}
use nightcore.Worker.FuncWorker.{FuncWorker, Outside}
use nightcore.Worker.FuncWorker.Buffers.{IsSending}

module _ (o : Outside) (sending : IsSending o) (w : FuncWorker) (m r : Message) (c : FuncCall)
    (about : get_func_call_from_message m ≡ ok c) (quiet : w.ongoing_invoke_func ≡ false)
    (replied : o.reply m ≡ some r) (completed : r.message_type ≡ code func_call_complete)
    (shared_output : ltb_ℤ r.payload_size (pos 0) ≡ true)
    (missing : lookup (full_call_id c) (o.meanwhile m w.shared).output_regions ≡ none) where
  -- The worker after the message has been sent and the reply has come.
  abbrev waiting : FuncWorker
  waiting = record w {
    ongoing_invoke_func = true;
    sent = w.sent ++ record m { send_timestamp = o.now w.readings } ∷ [];
    readings = suc w.readings;
    shared = o.meanwhile m w.shared;
  }
