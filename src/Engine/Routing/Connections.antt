-- ===== src/Engine/Routing/Connections.antt =====
-- src/engine/engine.cpp and src/engine/worker_manager.cpp: connections of launchers and workers that
-- come and go.
use nightcore.Prelude.{
  ℕ, ◌+◌, Bool, true, false, not, ◌||◌, Option, none, some, List, [], is_some, ◌==◌, if◌then◌else◌,
  length,
}
use nightcore.Prelude.Map.{lookup, insert, erase, contains}
use nightcore.Prelude.Result.{Result, ok, ◌>>=◌, ◌>>◌, check}
use nightcore.Protocol.Message.{
  Message, get_inline_data_from_message, is_launcher_handshake_message,
  is_func_worker_handshake_message, new_handshake_response_message,
  func_worker_use_engine_socket_flag, use_fifo_for_nested_call_flag,
}
use nightcore.Utils.Average.{Doubles}
use nightcore.Config.{find_by_func_id}
use nightcore.Engine.World.{FuncWorker}
use nightcore.Engine.Manager.{on_launcher_connected, on_launcher_disconnected}
use nightcore.Engine.Dispatcher.Events.{on_func_worker_connected, on_func_worker_disconnected}
use nightcore.Engine.Routing.{
  Outside, Engine, Peer, get_or_create_dispatcher, update, process_discarded_func_call_if_necessary,
}

-- `docker_utils::kContainerIdLength`.
abbrev pub container_id_length : ℕ
container_id_length = 64

module _ {D : Doubles} where
  abbrev set_func_worker : Engine D → FuncWorker → Engine D
  set_func_worker e worker = record e {
    world = record (e.world) {
      manager = record (e.world.manager) {
        func_workers = insert worker.client_id worker e.world.manager.func_workers;
      };
    };
  }

  abbrev erase_func_worker : Engine D → ℕ → Engine D
  erase_func_worker e client_id = record e {
    world = record (e.world) {
      manager = record (e.world.manager) {
        func_workers = erase client_id e.world.manager.func_workers;
      };
    };
  }

  -- `WorkerManager::OnFuncWorkerConnected`.
  unfoldable pub manager_on_func_worker_connected : Engine D → Peer → Result (Bool × Engine D)
  manager_on_func_worker_connected e p =
      let worker : FuncWorker = record {
        func_id = p.func_id;
        client_id = p.client_id;
        connection = p.connection;
      } in
      if contains p.client_id e.world.manager.func_workers then ok (false, e) else (do
        (dispatcher, e') ← get_or_create_dispatcher (set_func_worker e worker) p.func_id
        elim dispatcher [
          | none ↦ ok (false, erase_func_worker e' p.client_id)
          | some d ↦ do
            (success, d', w) ← on_func_worker_connected d e'.world worker
            let e'' = update e' p.func_id d' w
            ok (if success then (true, e'') else (false, erase_func_worker e'' p.client_id))
        ])

  -- `WorkerManager::OnFuncWorkerDisconnected`.
  unfoldable pub manager_on_func_worker_disconnected : Engine D → Peer → Result (Engine D)
  manager_on_func_worker_disconnected e p = elim (lookup p.client_id e.world.manager.func_workers) [
    | none ↦ ok e
    | some worker ↦ do
      (dispatcher, e') ← get_or_create_dispatcher (erase_func_worker e p.client_id) p.func_id
      elim dispatcher [
        | none ↦ ok e'
        | some d ↦ do
          d' ← on_func_worker_disconnected d worker
          ok (update e' p.func_id d' e'.world)
      ]
  ]

  module _ (outside : Outside) (func_config_json : List ℕ) where
    -- The answer to a handshake, and its payload.
    unfoldable pub handshake_response : Engine D → Bool → Message × List ℕ
    handshake_response e launcher =
        if launcher
        then (
          (let response = new_handshake_response_message (length func_config_json) in
              if e.world.flags.func_worker_use_engine_socket
              then record response { flags = response.flags + func_worker_use_engine_socket_flag }
              else response),
          func_config_json,
        )
        else (
          (let response = new_handshake_response_message 0 in
              if e.world.flags.use_fifo_for_nested_call
              then record response { flags = response.flags + use_fifo_for_nested_call_flag }
              else response),
          [],
        )

    -- The launcher's or the worker's part of a handshake of a known function.
    unfoldable pub accept_handshake : Engine D → Peer → Message → Result (Bool × Engine D)
    accept_handshake e p message =
        if is_launcher_handshake_message message
        then (do
          payload ← get_inline_data_from_message message
          (if not (length payload == container_id_length) then ok (false, e) else (do
            (success, w) ← on_launcher_connected e.world p.func_id p.connection
            ok (success, record e { world = w }))))
        else (do
          (success, e') ← manager_on_func_worker_connected e p
          ok (success, process_discarded_func_call_if_necessary outside e'))

    unfoldable pub on_new_handshake :
        Engine D → Peer → Message → Result (Option (Message × List ℕ) × Engine D)
    on_new_handshake e p message =
        if not (is_launcher_handshake_message message || is_func_worker_handshake_message message)
        then ok (none, e)
        else if not (is_some (find_by_func_id e.world.config message.func_id))
        then ok (none, e)
        else (do
          (success, e') ← accept_handshake e p message
          ok (
            (if success
                then some (handshake_response e' (is_launcher_handshake_message message))
                else none),
            e',
          ))

  -- A connection of a launcher or a worker is gone.
  unfoldable pub close_message_connection : Engine D → ℕ → Result (Engine D)
  close_message_connection e id = do
    check (contains id e.message_connections)
    elim (lookup id e.message_connections) [
      | none ↦ ok e
      | some p ↦ do
        e' ←
            (if not p.handshake_done
              then ok e
              else if p.client_id == 0
              then ok (record e { world = on_launcher_disconnected e.world p.func_id p.connection })
              else manager_on_func_worker_disconnected e p)
        ok (record e' { message_connections = erase id e'.message_connections })
    ]

  unfoldable pub close_gateway_connection : Engine D → ℕ → Result (Engine D)
  close_gateway_connection e id = do
    check (contains id e.gateway_connections)
    ok (record e { gateway_connections = erase id e.gateway_connections })
