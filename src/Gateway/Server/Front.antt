-- ===== src/Gateway/Server/Front.antt =====
-- src/gateway/server.cpp: calls that come by name, over HTTP or gRPC, and engines that connect.
use nightcore.Prelude.{
  ℕ, zero, suc, ◌%◌, ◌^◌, ◌<◌, ◌≡◌, refl, arith, Bool, true, not, Option, none, some, List, [], ◌∷◌,
  length, get_elem?, take, drop, leb, if◌then◌else◌,
}
use nightcore.Prelude.Int.{ℤ}
use nightcore.Prelude.Map.{Map, insert, contains}
use nightcore.Prelude.Names.{Name, find_name}
use nightcore.Prelude.Result.{Result, ok, ◌>>=◌, ◌>>◌, check, Returns, >>=-Returns}
use nightcore.Protocol.{FuncCall, new_func_call, new_func_call_with_method}
use nightcore.Protocol.Gateway.{is_engine_handshake_message, node_id, conn_id}
use nightcore.Config.{Entry, FuncConfig, find_by_func_name}
use nightcore.Config.Consistent.{IsConsistent}
use nightcore.Connection.EngineConnection.{EngineConnection, new_engine_connection}
use nightcore.Connection.Frames.{Layout}
use nightcore.Gateway.Server.{Server, Action, finish, not_found, on_new_func_call_common, add_node}
use nightcore.Gateway.Server.Bounds.{IsSound, on_new_func_call_common-IsSound}

-- The server with the members that only these calls use.
pub record Front : Type 0 where
  pub server : Server
  pub config : FuncConfig
  pub next_call_id : ℕ

-- `fetch_add` of a `uint32_t`.
abbrev pub count_call : Front → Server → Front
count_call f s = record f { server = s; next_call_id = suc f.next_call_id % 2 ^ 32 }

abbrev pub grpc_call : Front → Entry → ℕ → FuncCall
grpc_call f entry method_id = new_func_call_with_method entry.func_id method_id 0 f.next_call_id

-- The id of a method of a service.
unfoldable pub method_of : FuncConfig → Name → Name → Option (Entry × ℕ)
method_of config func_name method_name = elim (find_by_func_name config func_name) [
  | none ↦ none
  | some entry ↦
      if entry.is_grpc_service
      then (elim (find_name method_name entry.grpc_method_ids) [
        | none ↦ none
        | some method_id ↦ some (entry, method_id)
      ])
      else none
]

method_of-known :
    (config : FuncConfig) (func_name method_name : Name) (entry : Entry) (i : ℕ)
    → find_by_func_name config func_name ≡ some entry
    → entry.is_grpc_service ≡ true
    → find_name method_name entry.grpc_method_ids ≡ some i
    → method_of config func_name method_name ≡ some (entry, i)
unfolding method_of
method_of-known config func_name method_name entry i found service known =
    simp (found, method_of, service, known)

get_elem?-below : (xs : List Name) (i : ℕ) (x : Name) → get_elem? xs i ≡ some x → i < length xs
get_elem?-below [] i x h = cc
get_elem?-below (y ∷ xs) zero x h = omega arith
get_elem?-below (y ∷ xs) (suc i) x h = omega (arith, get_elem?-below xs i x h)

module _ (reachable : ℕ → Bool) where
  unfoldable pub on_new_http_func_call : Front → ℤ → ℕ → ℕ → Name → Result (Front × List Action)
  on_new_http_func_call f reading connection_id context func_name =
      elim (find_by_func_name f.config func_name) [
        | none ↦ ok (f, finish connection_id context not_found [] ∷ [])
        | some entry ↦ do
          (s, actions) ←
              on_new_func_call_common reachable f.server reading connection_id context
                (new_func_call entry.func_id 0 f.next_call_id)
          ok (count_call f s, actions)
      ]

  unfoldable pub on_new_grpc_func_call :
      Front → ℤ → ℕ → ℕ → Name → Name → Result (Front × List Action)
  on_new_grpc_func_call f reading connection_id context func_name method_name =
      elim (method_of f.config func_name method_name) [
        | none ↦ ok (f, finish connection_id context not_found [] ∷ [])
        | some x ↦ do
          (s, actions) ←
              on_new_func_call_common reachable f.server reading connection_id context
                (grpc_call f x.0 x.1)
          ok (count_call f s, actions)
      ]

  -- What the server has done is what it does with one new call, which names the function and the
  -- method as the configuration lists them and has the next id.
  pub record Taken (f : Front) (reading : ℤ) (connection_id context : ℕ) (method_name : Name)
      (entry : Entry) (r : Front × List Action) : Type 0 where
    pub sound : IsSound r.0.server
    pub counted : r.0.next_call_id ≡ suc f.next_call_id % 2 ^ 32
    pub call : FuncCall
    pub made :
        on_new_func_call_common reachable f.server reading connection_id context call
        ≡ ok (r.0.server, r.1)
    pub func : call.func_id ≡ entry.func_id
    pub method : get_elem? entry.grpc_methods call.method_id ≡ some method_name
    pub client : call.client_id ≡ 0
    pub id : call.call_id ≡ f.next_call_id % 2 ^ 32

  Returns-self :
      {A : Type 0} (m : Result A) (P : A → Type 0) → Returns m P → Returns m (λ r. P r × (m ≡ ok r))
  Returns-self (ok r) P h = (h, refl)
  Returns-self (Result.err e) P h = absurd h

  -- On a sound server with a configuration as Load leaves it, a gRPC call of a known method of a
  -- known service: OnNewGrpcFuncCall returns, the server is sound, and the next call id is counted
  -- up modulo 2^32. The server and the actions are those of OnNewFuncCallCommon with one new call,
  -- which carries the id of the service, the position of the method in its list, client id 0 and
  -- the low bits of the call id.
  pub on_new_grpc_func_call-Taken :
      (f : Front) (reading : ℤ) (connection_id context : ℕ) (func_name method_name : Name)
      (entry : Entry) (i : ℕ)
      → IsSound f.server
      → IsConsistent f.config
      → find_by_func_name f.config func_name ≡ some entry
      → entry.is_grpc_service ≡ true
      → find_name method_name entry.grpc_method_ids ≡ some i
      → Returns
          (on_new_grpc_func_call f reading connection_id context func_name method_name)
          (Taken f reading connection_id context method_name entry)
  unfolding on_new_grpc_func_call new_func_call_with_method
  on_new_grpc_func_call-Taken f reading connection_id context func_name method_name entry i sound
        consistent found service known =
      let named = consistent.by_name func_name entry found in
      let (same, low, high, table, back) = consistent.by_id entry.func_id entry named.2 in
      let listed = (table.ids method_name i).0 known in
      let inside = get_elem?-below entry.grpc_methods i method_name listed in
      let few = table.few in
      let kept : i % 2 ^ 6 ≡ i = omega arith in
      let m =
        on_new_func_call_common reachable f.server reading connection_id context
          (grpc_call f entry i) in
      rw
        (
          method_of-known f.config func_name method_name entry i found service known,
          on_new_grpc_func_call,
          Returns,
        )
        (>>=-Returns m _ (λ r. IsSound r.0 × (m ≡ ok r))
          (Taken f reading connection_id context method_name entry)
          (Returns-self m (λ r. IsSound r.0)
            (on_new_func_call_common-IsSound reachable f.server reading connection_id context
              (grpc_call f entry i) sound))
          λ r (ok_now, made). record {
            sound = ok_now;
            counted = refl;
            call = grpc_call f entry i;
            made = made;
            func = omega arith;
            method = rw kept listed;
            client = refl;
            id = refl;
          })

-- An engine has connected: its node is entered, and the bytes behind the handshake are the first of
-- the connection. `ids` gives the id of the new connection, and the result says which of the IO
-- workers has it.
unfoldable pub on_engine_handshake :
    (ℕ → List ℕ)
    → Layout
    → ℕ
    → ℕ
    → Front
    → Map EngineConnection
    → List ℕ
    → Result (Option ℕ × Front × Map EngineConnection)
on_engine_handshake malloc layout n_workers id f engine_connections data_bytes = do
  check (leb layout.header_size (length data_bytes))
  let message = layout.decode (take layout.header_size data_bytes)
  (if not (is_engine_handshake_message message) then ok (none, f, engine_connections) else (do
    check (not (contains id engine_connections))
    ok (
      some (conn_id message % n_workers),
      record f { server = add_node f.server (node_id message) },
      insert id (new_engine_connection malloc layout (drop layout.header_size data_bytes))
          engine_connections,
    )))
