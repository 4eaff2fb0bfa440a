-- ===== src/Engine/Routing/Tests.antt =====
-- External calls on an engine with one dispatcher, and two discarded calls.
use nightcore.Prelude.{refl, inl, inr, arith, true, none, [], ◌∷◌}
use nightcore.Prelude.Int.{pos, negsuc}
use nightcore.Prelude.Map.{lookup}
use nightcore.Prelude.Result.{Returns}
use nightcore.Protocol.{FuncCall, full_call_id}
use nightcore.Engine.Dispatcher.Tests.{whole, world, call, later, idle, idle-Sound, can_spawn}
use nightcore.Engine.Dispatcher.Queue.{IsTraced}
use nightcore.Engine.Routing.Discarded.{Failed, process_discarded_func_call_if_necessary-Failed}
use nightcore.Engine.Routing.External.{
  IsReady, Accepted, Refused, on_external_func_call-Accepted, on_external_func_call-Refused,
}
use nightcore.Engine.Routing.Handlers.{on_external_func_call}
use nightcore.Engine.Routing.{Outside, Engine, process_discarded_func_call_if_necessary}

abbrev outside : Outside
outside = record {
  shm_create = λ c. true;
  output_shm = λ c. none;
  has_gateway_connection = λ n. true;
  fifo_written = λ n. true;
}

abbrev nested : FuncCall
nested = record { func_id = 7; method_id = 0; client_id = 3; call_id = 5; padding = 0 }

abbrev engine : Engine whole
engine = record {
  world = record world { discarded_func_calls = call ∷ nested ∷ [] };
  dispatchers = (7, idle) ∷ [];
  external_func_call_shm_inputs = [];
  inflight_external_requests = pos 1;
  last_external_request_timestamp = negsuc 0;
  message_connections = [];
  gateway_connections = [];
  replies = [];
  fifo_failed = [];
}

-- No function 8 is configured.
abbrev unknown : FuncCall
unknown = record { func_id = 8; method_id = 0; client_id = 0; call_id = 6; padding = 0 }

process_discarded_func_call_if_necessary-Failed_example :
    Failed outside
      (call ∷ nested ∷ [])
      (record engine { world = record (engine.world) { discarded_func_calls = [] } })
      (process_discarded_func_call_if_necessary outside engine)
process_discarded_func_call_if_necessary-Failed_example =
    process_discarded_func_call_if_necessary-Failed outside engine

on_external_func_call-Refused_example :
    Returns
      (on_external_func_call outside engine unknown (1 ∷ 2 ∷ []))
      (Refused outside unknown engine)
unfolding lookup
on_external_func_call-Refused_example =
    on_external_func_call-Refused outside engine unknown (1 ∷ 2 ∷ []) (inr (refl, refl))

engine-IsReady : IsReady engine later idle
unfolding lookup full_call_id
engine-IsReady = record {
  found = refl;
  sound = record { tables = idle-Sound.tables; traced = traced; queue = tt };
  func = refl;
  call = omega arith;
  new = refl;
  order = omega arith;
  spawn = record { id_left = can_spawn.id_left; pipes = can_spawn.pipes };
}
  where
    traced : IsTraced 7 engine.world
    traced = record {
      in_range = idle-Sound.traced.in_range;
      has_stats = idle-Sound.traced.has_stats;
      pointers = idle-Sound.traced.pointers;
    }

on_external_func_call-Accepted_example :
    Returns
      (on_external_func_call outside engine later (1 ∷ 2 ∷ []))
      (Accepted later (1 ∷ 2 ∷ []) idle engine)
on_external_func_call-Accepted_example =
    on_external_func_call-Accepted outside engine later (1 ∷ 2 ∷ []) idle engine-IsReady
      (inl (omega arith))
