-- ===== src/Engine/Manager.antt =====
-- src/engine/worker_manager.cpp: the launchers, the worker processes and their client ids.
use nightcore.Prelude.{
  ℕ, zero, suc, ◌%◌, ◌^◌, Bool, true, false, ◌||◌, Option, none, some, [], leb, ◌==◌, if◌then◌else◌,
}
use nightcore.Prelude.Int.{negsuc, pos_part, eq_ℤ}
use nightcore.Prelude.Map.{lookup, insert, erase, contains}
use nightcore.Prelude.Result.{Result, ok, ◌>>=◌, ◌>>◌, check, deref}
use nightcore.Protocol.{max_client_id}
use nightcore.Protocol.Message.{new_create_func_worker_message}
use nightcore.Utils.Average.{Doubles}
use nightcore.Config.{find_by_func_id}
use nightcore.Engine.World.{FuncWorker, WorkerManager, World, write_message}

abbrev pub default_min_workers_per_func : ℕ
default_min_workers_per_func = 4

abbrev pub initial : WorkerManager
initial = record { next_client_id = 1; launcher_connections = []; func_workers = [] }

module _ {D : Doubles} where
  -- The next client id, a `uint16_t`, and the message that asks the launcher for the process.
  unfoldable pub request_new_func_worker_internal : World D → ℕ → Result (ℕ × World D)
  request_new_func_worker_internal w launcher = do
    let client_id = w.manager.next_client_id
    let counted = record w {
      manager = record (w.manager) { next_client_id = suc client_id % 2 ^ 16 };
    }
    check (leb client_id max_client_id)
    check (w.flags.func_worker_use_engine_socket || w.fifo_create client_id)
    ok (client_id, write_message counted launcher (new_create_func_worker_message client_id))

  unfoldable pub request_new_func_worker : World D → ℕ → Result (Option ℕ × World D)
  unfolding request_new_func_worker_internal
  request_new_func_worker w func_id = elim (lookup func_id w.manager.launcher_connections) [
    | none ↦ ok (none, w)
    | some launcher ↦ do
      (client_id, w') ← request_new_func_worker_internal w launcher
      ok (some client_id, w')
  ]

  -- The loop of `OnLauncherConnected`.
  unfoldable pub request_workers : ℕ → World D → ℕ → Result (World D)
  unfolding request_new_func_worker_internal
  request_workers zero w launcher = ok w
  request_workers (suc n) w launcher = do
    (client_id, w') ← request_new_func_worker_internal w launcher
    request_workers n w' launcher

  -- A negative number of workers other than -1 makes no round of the loop.
  unfoldable pub on_launcher_connected : World D → ℕ → ℕ → Result (Bool × World D)
  unfolding request_workers
  on_launcher_connected w func_id launcher =
      let connected = record w {
        manager = record (w.manager) {
          launcher_connections = insert func_id launcher w.manager.launcher_connections;
        };
      } in
      if contains func_id w.manager.launcher_connections then ok (false, w) else do
        entry ← deref (find_by_func_id w.config func_id)
        let workers =
            if eq_ℤ entry.min_workers (negsuc 0)
            then default_min_workers_per_func
            else pos_part entry.min_workers
        w' ← request_workers workers connected launcher
        ok (true, w')

  unfoldable pub on_launcher_disconnected : World D → ℕ → ℕ → World D
  on_launcher_disconnected w func_id launcher =
      elim (lookup func_id w.manager.launcher_connections) [
        | none ↦ w
        | some current ↦
            if current == launcher
            then record w {
              manager = record (w.manager) {
                launcher_connections = erase func_id w.manager.launcher_connections;
              };
            }
            else w
      ]

  unfoldable pub get_func_worker : World D → ℕ → Option FuncWorker
  get_func_worker w client_id = lookup client_id w.manager.func_workers
