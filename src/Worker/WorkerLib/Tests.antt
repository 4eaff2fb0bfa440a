-- ===== src/Worker/WorkerLib/Tests.antt =====
-- An internal call with an output of three bytes.
use nightcore.Prelude.{◌≡◌, refl, arith, true, some, [], ◌∷◌}
use nightcore.Prelude.Int.{pos}
use nightcore.Prelude.Map.{lookup}
use nightcore.Prelude.Result.{Returns}
use nightcore.Protocol.{FuncCall}
use nightcore.Protocol.Message.{code, func_call_complete}
use nightcore.Worker.WorkerLib.{System, Shared, fifo_func_call_finished, fifo_get_func_call_output}
use nightcore.Worker.WorkerLib.RoundTrip.{IsServing, fifo_get_func_call_output-finished}

abbrev system : System
system = record { shm_create = λ c. true; fifo_open = λ c. true; fifo_write = λ c n. some n }

abbrev shared : Shared
shared = record { input_regions = []; output_regions = []; output_fifos = [] }

abbrev call : FuncCall
call = record { func_id = 7; method_id = 0; client_id = 3; call_id = 5; padding = 0 }

system-IsServing : IsServing system call
system-IsServing = record { creates = refl; opens = refl; writes = λ n h. refl }

fifo_get_func_call_output-finished_example :
    Returns (fifo_func_call_finished system shared call true (4 ∷ 5 ∷ 6 ∷ []) (pos 30)) (λ r.
      ((fifo_get_func_call_output r.1 call).0 ≡ some (some (4 ∷ 5 ∷ 6 ∷ [])))
      × (r.0.payload_size ≡ pos 3)
      × (r.0.message_type ≡ code func_call_complete))
unfolding lookup
fifo_get_func_call_output-finished_example =
    fifo_get_func_call_output-finished system shared call (4 ∷ 5 ∷ 6 ∷ []) system-IsServing refl
      (omega arith) true (pos 30) refl
