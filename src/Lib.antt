-- ===== src/Lib.antt =====
-- Nightcore: a runtime for functions as a service. A gateway takes calls from outside and sends them
-- to an engine on each node; the engine gives each call to a worker process of the function, or keeps
-- it in a queue; launchers start the workers. The parts exchange fixed-size messages over sockets and
-- pipes, and large inputs go through shared memory.
--
-- Protocol (with Message, Gateway): src/common/protocol.h. Bit fields and unions are numbers, and a
--   store to a field keeps its low bits.
-- Utils/Buffer, Utils/Framing: src/utils/appendable_buffer.h, the buffer of each connection and
--   `ReadMessages`. Memory is a list of bytes; `malloc` is a parameter that gives n bytes of any
--   content. Sizes are `int` in the code and numbers without a limit here, so that the overflow of a
--   doubled size, beyond 2^30 bytes, does not show. The loop that doubles the size has the needed
--   size as its fuel, which is enough since each round adds at least one; `ReadMessages` has one
--   round more than bytes, and each round takes at least one. Running out of fuel there is a failed
--   check, so a theorem that it returns includes that the fuel is enough.
-- Utils/Average: src/utils/exp_moving_avg.h. Floating point is the parameter `Doubles`, a record of
--   the operations that the code calls; no law of them is assumed.
-- Utils/RankingBst: src/utils/bst.h, the tree and its pool of nodes; `<` of the values is a parameter,
--   with the laws of an order where a theorem needs them.
-- Ipc/SpscQueue: src/ipc/spsc_queue.h and spsc_queue-inl.h. `push` and `pop` are one step each; the
--   shared words and cells are a record, and each side has its own handle.
-- Config (with Load): src/common/func_config.h and func_config.cpp. The JSON library is the parameter
--   `JsonLib`; an exception that it throws is `none`, which `Load` turns into false. Methods,
--   Consistent and Registered hold the proofs.
-- Engine/World: the state that the parts of the engine share: clock readings, flags, the tracer, the
--   worker manager, the calls discarded, and what was written to connections.
-- Engine/Tracer: src/engine/tracer.cpp. A pointer to a `FuncCallInfo` is an index of the store of all
--   objects given out; none is ever returned to the pool. Sums of delays
--   keep their low 32 bits.
-- Engine/Manager: src/engine/worker_manager.cpp, the launchers and the requests for workers.
-- Engine/Dispatcher: src/engine/dispatcher.cpp, one per function: State, Limits (concurrency and
--   requests for workers), Dispatch (giving calls to workers), Events (what the engine calls). An
--   event is one function from state to state, as its lock is held throughout; the tracer's part of a
--   call that ends comes before the lock, and nothing is taken to happen in between. Queue, Idle,
--   Invariant, Sound, Completed and Disconnect hold the proofs.
-- Engine/Routing: src/engine/engine.cpp, the messages that reach the engine: Handlers (calls from the
--   gateway, messages of workers), Connections (handshakes and closed connections, with the part of
--   src/engine/worker_manager.cpp that calls a dispatcher). What the system answers is the parameter
--   `Outside`; replies are listed whether or not there was a connection for them. Discarded and
--   External hold the proofs.
-- Gateway/Server: src/gateway/server.cpp, the part under the lock; Front has the calls by name and
--   the handshakes of engines. Balance and Pick are about the choice of a node, Bounds about the
--   limit of running calls. What is sent or finished is a list of
--   actions; whether a node's engine can be reached, and the random draws, are parameters.
-- Connection: src/gateway/engine_connection.cpp (EngineConnection) and src/engine/gateway_connection.cpp
--   (GatewayConnection), the two ends of a connection as state machines; Frames has the loops that
--   both files repeat. The layout of a message header in memory is the parameter `Layout`. The fuel of
--   a loop is one more than the bytes to send or in the buffer, which is enough since each round
--   takes at least one. Delivery sends from one end to the other.
-- Engine/MessageConnection: src/engine/message_connection.cpp, the engine's end of a connection to a
--   launcher or a worker; each round of its loop of writes takes a byte at least. Pending and Handshake
--   hold the proofs.
-- Server/IoWorker: src/server/io_worker.cpp, the tables of connections and the choice among them.
--   Valid, Join and Picks hold the proofs.
-- Worker/WorkerLib: src/worker/worker_lib.cpp, over the pipes and the shared memory of a node. What
--   the system answers is the parameter `System`; words in a pipe have the low byte first.
-- Worker/FuncWorker: src/worker/v1/func_worker.cpp. The function is a tree of what it asks of its
--   context, so a run ends; what comes back for an invocation, and what is done to shared memory and
--   pipes in the meantime, is the parameter `Outside`. Invoke has invocations, Serve the serving loop;
--   Buffers, Answers and Stuck hold the proofs.
-- Worker/EventDriven: src/worker/event_driven_worker.cpp. Calls has the calls that come in and go out,
--   Pipes the messages of the launcher and the engine and the pipes for outputs. Pointers are keys of
--   the tables that own what they point to. Finished and Completed hold the proofs.
-- Gateway/Http, Gateway/Context: src/gateway/http_connection.cpp and func_call_context.h. The
--   callbacks of the HTTP parser are a list of events, with what the server's handler does with a
--   new call before it returns; the JSON and URL libraries are a parameter. Query has the query
--   strings, Request the requests and responses; Encoding, Decoding, Headers and Served hold the
--   proofs.
-- Utils/Pool: src/utils/object_pool.h and buffer_pool.h; an object is the number of those made before.
-- Utils/Stat (with Counted, Collected): src/common/stat.h, the timer of reports, `Counter` and the
--   collector of samples that is built by default. The readings of the clock are arguments, and
--   `std::sort` is the parameter `sort`, of which only is used that it permutes.
--
-- `Result` (Prelude/Result) is a value or a fault: a failed `CHECK` or `DCHECK`, a null pointer that
-- is followed, an index out of bounds. `Returns m P` says that `m` is a value with `P`, so it includes
-- that no check fails. A dispatcher is sound (Engine/Dispatcher/Sound) when workers stand under their
-- own ids, each assigned call is the one that its worker runs, each connected worker runs a call or is
-- in the idle list, the tracer has statistics for the function and its pointers lie in its store, and
-- the queue holds dispatch messages of the function with objects of the tracer. A server is sound
-- (Gateway/Server/Bounds) when the limit of running calls holds, the turns of the round robin point to
-- nodes, and calls run only if there is a node.
--
-- Not modelled: sockets and event loops, logging and the text of reports, `CategoryCounter` and the
-- collector of norms, the gRPC connections of clients (callbacks of an HTTP/2 library that is not in
-- the repository), the text of HTTP responses, the launcher, the loading of a function's library, and
-- the bindings for other languages.
pub mod Prelude
pub mod Protocol
pub mod Utils
pub mod Config
pub mod Ipc
pub mod Engine
pub mod Gateway
pub mod Connection
pub mod Server
pub mod Worker
