-- ===== src/Server/IoWorker.antt =====
-- src/server/io_worker.cpp: the connections of one event loop, and the choice among those of a type.
mod Valid
mod Join
mod Picks
mod Tests
use nightcore.Prelude.{
  ℕ, suc, ◌+◌, ◌-◌, ◌%◌, ◌^◌, Bool, true, false, not, ◌&&◌, ◌||◌, Option, none, some, List, [], ◌∷◌,
  ◌++◌, length, get_elem?, ltb, ◌==◌, if◌then◌else◌,
}
use nightcore.Prelude.Map.{Map, lookup, insert, erase, contains}
use nightcore.Prelude.Result.{Result, ok, ◌>>=◌, ◌>>◌, check, deref}

pub data State : Type 0 where
  created running stopping stopped : State

abbrev pub is_running : State → Bool
is_running running = true
is_running _ = false

abbrev pub is_stopping : State → Bool
is_stopping stopping = true
is_stopping _ = false

-- `type` is `none` for a negative number. Connections have ids that are not negative.
pub record Connection : Type 0 where
  pub id : ℕ
  pub type : Option ℕ

-- A set of ids is a list without an order that matters. `scheduled_functions` has the owner of each
-- function, `none` for a negative id.
pub record IoWorker : Type 0 where
  pub state : State
  pub connections : Map Connection
  pub connections_by_type : Map (List ℕ)
  pub connections_for_pick : Map (List Connection)
  pub connections_for_pick_rr : Map ℕ
  pub connections_on_closing : ℕ
  pub scheduled_functions : List (Option ℕ × ℕ)

abbrev pub has_id : ℕ → List ℕ → Bool
has_id id [] = false
has_id id (x ∷ ids) = if x == id then true else has_id id ids

abbrev pub add_id : ℕ → List ℕ → List ℕ
add_id id ids = if has_id id ids then ids else ids ++ (id ∷ [])

abbrev pub remove_id : ℕ → List ℕ → List ℕ
remove_id id [] = []
remove_id id (x ∷ ids) = let rest = remove_id id ids in if x == id then rest else x ∷ rest

-- `connections_by_type_[type]`, which makes an empty set.
abbrev pub ids_of : IoWorker → ℕ → List ℕ
ids_of w type = elim (lookup type w.connections_by_type) [ none ↦ [] | some ids ↦ ids ]

abbrev pub turn_of : IoWorker → ℕ → ℕ
turn_of w type = elim (lookup type w.connections_for_pick_rr) [ none ↦ 0 | some turn ↦ turn ]

-- The list that is made of the ids at the first choice.
unfoldable pub collect : IoWorker → List ℕ → Result (List Connection)
collect w [] = ok []
collect w (id ∷ ids) = do c ← deref (lookup id w.connections); rest ← collect w ids; ok (c ∷ rest)

-- The list to choose from, kept for the next time.
unfoldable pub pick_list : IoWorker → ℕ → Result (List Connection)
pick_list w type = elim (lookup type w.connections_for_pick) [
  | none ↦ collect w (ids_of w type)
  | some conns ↦ do check (length conns == length (ids_of w type)); ok conns
]

unfoldable pub pick_connection : IoWorker → ℕ → Result (Option Connection × IoWorker)
pick_connection w type =
    let n_conn = length (ids_of w type) in
    let turn = turn_of w type in
    if n_conn == 0 then ok (none, w) else (do
      conns ← pick_list w type
      c ← deref (get_elem? conns (turn % n_conn))
      ok (
        some c,
        record w {
          connections_for_pick = insert type conns w.connections_for_pick;
          connections_for_pick_rr = insert type (suc turn % 2 ^ 64) w.connections_for_pick_rr;
        },
      ))

-- The tables of a type without a connection.
unfoldable pub leave_type : IoWorker → ℕ → ℕ → Result IoWorker
leave_type w id type = do
  check (has_id id (ids_of w type))
  ok (record w {
    connections_by_type = insert type (remove_id id (ids_of w type)) w.connections_by_type;
    connections_for_pick = erase type w.connections_for_pick;
  })

unfoldable pub on_connection_close : IoWorker → Connection → Result IoWorker
on_connection_close w c = do
  check (contains c.id w.connections)
  let gone = record w { connections = erase c.id w.connections }
  w' ← elim c.type [ none ↦ ok gone | some type ↦ leave_type gone c.id type ]
  ok (record w' { connections_on_closing = suc w'.connections_on_closing })

-- The tables of a type with one connection more.
unfoldable pub join_type : IoWorker → Connection → ℕ → IoWorker
join_type w c type = record w {
  connections_by_type = insert type (add_id c.id (ids_of w type)) w.connections_by_type;
  connections_for_pick = elim (lookup type w.connections_for_pick) [
    | none ↦ w.connections_for_pick
    | some conns ↦ insert type (conns ++ (c ∷ [])) w.connections_for_pick
  ];
}

-- Whether the connection is closed at once, and the worker.
unfoldable pub new_connection : IoWorker → Connection → Result (Bool × IoWorker)
new_connection w c = do
  check (not (contains c.id w.connections))
  let come = record w { connections = insert c.id c w.connections }
  ok (is_stopping w.state, elim c.type [ none ↦ come | some type ↦ join_type come c type ])

-- The server has a closed connection back: whether the pipe to it is closed, and the worker.
unfoldable pub pipe_write : IoWorker → Result (Bool × IoWorker)
pipe_write w = do
  check (ltb 0 w.connections_on_closing)
  let left = w.connections_on_closing - 1
  ok (
    is_stopping w.state && (length w.connections == 0) && (left == 0),
    record w { connections_on_closing = left },
  )

-- Whether the pipe is closed; if not, all connections are. In the stopping state nothing is done.
unfoldable pub stop : IoWorker → Bool × IoWorker
stop w = if is_stopping w.state then (false, w) else (
  (length w.connections == 0) && (w.connections_on_closing == 0),
  record w { state = stopping },
)

-- The functions that run at once, and the worker: within the event loop a function does, and one of
-- another thread waits.
unfoldable pub schedule_function : Bool → IoWorker → Option ℕ → ℕ → List ℕ × IoWorker
schedule_function within_event_loop w owner fn =
    if not (is_running w.state)
    then ([], w)
    else if within_event_loop
    then (fn ∷ [], w)
    else ([], record w { scheduled_functions = w.scheduled_functions ++ ((owner, fn) ∷ []) })

abbrev pub has_owner : IoWorker → Option ℕ → Bool
has_owner w none = true
has_owner w (some id) = contains id w.connections

abbrev pub to_run : IoWorker → List (Option ℕ × ℕ) → List ℕ
to_run w [] = []
to_run w ((owner, fn) ∷ functions) =
    if has_owner w owner then fn ∷ to_run w functions else to_run w functions

-- The functions that run, in order. A function does not close connections by itself: that takes a
-- callback of its own.
unfoldable pub run_scheduled_functions : IoWorker → List ℕ × IoWorker
run_scheduled_functions w =
    if is_running w.state
    then (to_run w w.scheduled_functions, record w { scheduled_functions = [] })
    else ([], w)
