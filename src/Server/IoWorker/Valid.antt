-- ===== src/Server/IoWorker/Valid.antt =====
-- The tables of an IO worker agree, and connections that come and go keep it so.
use nightcore.Prelude.{
  ℕ, suc, ◌≡◌, ◌≢◌, refl, arith, true, false, Option, none, some, List, [], ◌∷◌, ◌++◌, length, ◌==◌,
  if◌then◌else◌,
}
use nightcore.Prelude.Map.{lookup, insert, erase, lookup-insert, lookup-erase}
use nightcore.Prelude.Result.{Returns}
use nightcore.Server.IoWorker.{
  Connection, IoWorker, has_id, remove_id, ids_of, leave_type, on_connection_close,
}

-- A connection of the worker, of a type.
abbrev pub IsOf : IoWorker → ℕ → Connection → Type 0
IsOf w type c = (lookup c.id w.connections ≡ some c) × (c.type ≡ some type)

abbrev pub AllOf : IoWorker → ℕ → List Connection → Type 0
AllOf w type [] = Unit {0}
AllOf w type (c ∷ conns) = IsOf w type c × AllOf w type conns

-- The ids of a type are those of its connections, and the list to choose from has as many
-- connections, all of the type.
pub record IsValid (w : IoWorker) : Type 0 where
  pub own : (id : ℕ) (c : Connection) → lookup id w.connections ≡ some c → c.id ≡ id
  pub listed : (type : ℕ) (c : Connection) → IsOf w type c → has_id c.id (ids_of w type) ≡ true
  pub held :
      (type id : ℕ)
      → has_id id (ids_of w type) ≡ true
      → (c : Connection) × (lookup id w.connections ≡ some c) × (c.type ≡ some type)
  pub cached :
      (type : ℕ) (conns : List Connection)
      → lookup type w.connections_for_pick ≡ some conns
      → (length conns ≡ length (ids_of w type)) × AllOf w type conns

pub has_id-append :
    (id x : ℕ) (ids : List ℕ)
    → has_id id (ids ++ (x ∷ [])) ≡ (if has_id id ids then true else x == id)
has_id-append id x [] = ground arith
has_id-append id x (y ∷ ids) = ground (arith, has_id-append id x ids)

has_id-remove_id :
    (id x : ℕ) (ids : List ℕ)
    → has_id id (remove_id x ids) ≡ (if x == id then false else has_id id ids)
has_id-remove_id id x [] = ground arith
has_id-remove_id id x (y ∷ ids) = ground (arith, has_id-remove_id id x ids)

ids_of-insert :
    (w : IoWorker) (type probe : ℕ) (ids : List ℕ)
    → ids_of (record w { connections_by_type = insert type ids w.connections_by_type }) probe
      ≡ (if type == probe then ids else ids_of w probe)
ids_of-insert w type probe ids = ground (arith, lookup-insert type probe ids w.connections_by_type)

-- Connections other than the one that goes or comes stay of their type.
pub AllOf-map :
    (w w' : IoWorker) (type : ℕ) (conns : List Connection)
    → ((c : Connection) → IsOf w type c → IsOf w' type c)
    → AllOf w type conns
    → AllOf w' type conns
AllOf-map w w' type [] f h = tt
AllOf-map w w' type (c ∷ conns) f h = (f c h.0, AllOf-map w w' type conns f h.1)

pub AllOf-append :
    (w : IoWorker) (type : ℕ) (conns : List Connection) (c : Connection)
    → AllOf w type conns
    → IsOf w type c
    → AllOf w type (conns ++ (c ∷ []))
AllOf-append w type [] c h k = (k, tt)
AllOf-append w type (x ∷ conns) c h k = (h.0, AllOf-append w type conns c h.1 k)

-- The worker without a connection that it had.
abbrev left : IoWorker → Connection → ℕ → ℕ → IoWorker
left w c type n = record w {
  connections = erase c.id w.connections;
  connections_by_type = insert type (remove_id c.id (ids_of w type)) w.connections_by_type;
  connections_for_pick = erase type w.connections_for_pick;
  connections_on_closing = n;
}

module _ (w : IoWorker) (c : Connection) (type n : ℕ) (v : IsValid w)
    (there : lookup c.id w.connections ≡ some c) (of_type : c.type ≡ some type) where
  held_before :
      (t id : ℕ)
      → has_id id (ids_of (left w c type n) t) ≡ true
      → (has_id id (ids_of w t) ≡ true) × ((t ≡ type) → id ≢ c.id)
  held_before t id h = (
    ground (
      arith,
      h,
      lookup-insert type t (remove_id c.id (ids_of w type)) w.connections_by_type,
      has_id-remove_id id c.id (ids_of w type),
    ),
    λ e f. ground (
      arith,
      h,
      e,
      f,
      lookup-insert type t (remove_id c.id (ids_of w type)) w.connections_by_type,
      has_id-remove_id id c.id (ids_of w type),
    ),
  )

  -- A connection of another type, or with another id, is still there.
  still_there :
      (t : ℕ) (d : Connection)
      → IsOf w t d
      → ((t ≡ type) → d.id ≢ c.id)
      → IsOf (left w c type n) t d
  still_there t d (l, k) other =
      (ground (arith, l, k, other, there, of_type, lookup-erase c.id d.id w.connections), k)

  leave-IsValid : IsValid (left w c type n)
  leave-IsValid = record {
    own = λ id d h. ground (arith, v.own id d, lookup-erase c.id id w.connections);
    listed = λ t d h. ground (
      arith,
      h,
      of_type,
      lookup-erase c.id d.id w.connections,
      lookup-insert type t (remove_id c.id (ids_of w type)) w.connections_by_type,
      has_id-remove_id d.id c.id (ids_of w type),
      v.listed t d,
    );
    held = λ t id h.
        let before = held_before t id h in
        let (d, l, k) = v.held t id before.0 in
        (d, ground (arith, l, k, before.1, there, of_type, lookup-erase c.id id w.connections), k);
    cached = λ t conns h.
        let other : t ≢ type =
          λ e. ground (arith, e, h, lookup-erase type t w.connections_for_pick) in
        let old : lookup t w.connections_for_pick ≡ some conns =
          ground (arith, h, other, lookup-erase type t w.connections_for_pick) in
        let known = v.cached t conns old in
        (
          ground (
            arith,
            known.0,
            other,
            lookup-insert type t (remove_id c.id (ids_of w type)) w.connections_by_type,
          ),
          AllOf-map w (left w c type n) t conns (λ d k. still_there t d k (λ e. absurd (other e)))
              known.1,
        );
  }

-- The worker without a connection that has no type.
abbrev left_plain : IoWorker → Connection → ℕ → IoWorker
left_plain w c n = record w { connections = erase c.id w.connections; connections_on_closing = n }

module _ (w : IoWorker) (c : Connection) (n : ℕ) (v : IsValid w)
    (there : lookup c.id w.connections ≡ some c) (plain : c.type ≡ none) where
  plain_still_there : (t : ℕ) (d : Connection) → IsOf w t d → IsOf (left_plain w c n) t d
  plain_still_there t d (l, k) =
      (ground (arith, l, k, there, plain, lookup-erase c.id d.id w.connections), k)

  leave_plain-IsValid : IsValid (left_plain w c n)
  leave_plain-IsValid = record {
    own = λ id d h. ground (arith, v.own id d, lookup-erase c.id id w.connections);
    listed = λ t d h. ground (arith, h, lookup-erase c.id d.id w.connections, v.listed t d);
    held = λ t id h.
        let (d, l, k) = v.held t id h in
        (d, ground (arith, l, k, there, plain, lookup-erase c.id id w.connections), k);
    cached = λ t conns h.
        let known = v.cached t conns h in
        (known.0, AllOf-map w (left_plain w c n) t conns (plain_still_there t) known.1);
  }

-- When a connection of an IO worker whose tables agree closes, OnConnectionClose returns: the
-- connection is gone, one more is on its way to the server, and the tables agree.
pub on_connection_close-IsValid :
    (w : IoWorker) (c : Connection)
    → IsValid w
    → lookup c.id w.connections ≡ some c
    → Returns (on_connection_close w c) (λ w'.
      IsValid w'
      × (w'.connections ≡ erase c.id w.connections)
      × (w'.connections_on_closing ≡ suc w.connections_on_closing))
unfolding on_connection_close leave_type
on_connection_close-IsValid w c v there = go c.type refl
  where
    go :
        (type : Option ℕ)
        → c.type ≡ type
        → Returns (on_connection_close w c) (λ w'.
          IsValid w'
          × (w'.connections ≡ erase c.id w.connections)
          × (w'.connections_on_closing ≡ suc w.connections_on_closing))
    go none e =
        rw (there, e) (leave_plain-IsValid w c (suc w.connections_on_closing) v there e, refl, refl)
    go (some type) e =
        rw (there, e, v.listed type c (there, e))
          (leave-IsValid w c type (suc w.connections_on_closing) v there e, refl, refl)
