-- ===== src/Server/IoWorker/Picks.antt =====
-- `PickConnection` finds a connection of the type whenever there is one, in turn.
use nightcore.Prelude.{
  ℕ, zero, suc, ◌%◌, ◌^◌, ◌<◌, ◌≡◌, refl, ap, ◌∙◌, subst, arith, inl, inr, true, false, Bool-cases,
  Option-cases, Option, some, List, [], ◌∷◌, length, get_elem?, get_elem?-lt, ◌==◌, ==_iff,
}
use native.Mathlib.Nat.{mod-lt}
use nightcore.Prelude.Map.{lookup, insert, lookup-insert}
use nightcore.Prelude.Result.{ok, Returns, >>=-Returns}
use nightcore.Server.IoWorker.Valid.{IsOf, AllOf, IsValid}
use nightcore.Server.IoWorker.{
  Connection, IoWorker, has_id, ids_of, turn_of, collect, pick_list, pick_connection,
}

-- As many connections as ids, all of the type.
abbrev Listed : IoWorker → ℕ → List Connection → Type 0
Listed w type conns = (length conns ≡ length (ids_of w type)) × AllOf w type conns

collect-AllOf :
    (w : IoWorker) (type : ℕ) (ids : List ℕ)
    → IsValid w
    → ((id : ℕ) → has_id id ids ≡ true → has_id id (ids_of w type) ≡ true)
    → Returns (collect w ids) (λ conns. (length conns ≡ length ids) × AllOf w type conns)
unfolding collect
collect-AllOf w type [] v sub = (refl, tt)
collect-AllOf w type (id ∷ ids) v sub =
    let (c, l, k) = v.held type id (sub id (ground arith)) in
    rw l (
      >>=-Returns (collect w ids) (λ rest. ok (c ∷ rest)) _
        (λ conns. (length conns ≡ length (id ∷ ids)) × AllOf w type conns)
        (collect-AllOf w type ids v (λ x h. sub x (ground (arith, h))))
        λ rest (same, all).
          (ap suc same, ((ap (λ i. lookup i w.connections) (v.own id c l) ∙ l, k), all)))

pick_list-Listed :
    (w : IoWorker) (type : ℕ) → IsValid w → Returns (pick_list w type) (Listed w type)
unfolding pick_list
pick_list-Listed w type v = elim (Option-cases (lookup type w.connections_for_pick)) [
  | inl e ↦ rw (e, pick_list) (collect-AllOf w type (ids_of w type) v (λ id h. h))
  | inr (conns, e) ↦
      let known = v.cached type conns e in
      rw (e, pick_list, (==_iff (length conns) (length (ids_of w type))).1 known.0) known
]

AllOf-get_elem? :
    (w : IoWorker) (type : ℕ) (conns : List Connection) (i : ℕ) (c : Connection)
    → AllOf w type conns
    → get_elem? conns i ≡ some c
    → IsOf w type c
AllOf-get_elem? w type [] i c all h = cc
AllOf-get_elem? w type (x ∷ conns) zero c all h = subst (IsOf w type) (ground (arith, h)) all.0
AllOf-get_elem? w type (x ∷ conns) (suc i) c all h = AllOf-get_elem? w type conns i c all.1 h

-- The worker behind a choice.
abbrev picked : IoWorker → ℕ → List Connection → IoWorker
picked w type conns = record w {
  connections_for_pick = insert type conns w.connections_for_pick;
  connections_for_pick_rr = insert type (suc (turn_of w type) % 2 ^ 64) w.connections_for_pick_rr;
}

picked-IsValid :
    (w : IoWorker) (type : ℕ) (conns : List Connection)
    → IsValid w
    → Listed w type conns
    → IsValid (picked w type conns)
picked-IsValid w type conns v listed = record {
  own = v.own;
  listed = v.listed;
  held = v.held;
  cached = λ t cs h. elim (Bool-cases (type == t)) [
    | inl same ↦
        let q : conns ≡ cs =
          ground (arith, h, same, lookup-insert type t conns w.connections_for_pick) in
        let t_is : type ≡ t = ground (arith, same) in
        subst (λ ds. Listed w t ds) q (subst (λ u. Listed w u conns) t_is listed)
    | inr other ↦
        v.cached t cs (ground (arith, h, other, lookup-insert type t conns w.connections_for_pick))
  ];
}

-- What a choice among at least one connection gives.
pub record Picked (w : IoWorker) (type : ℕ) (r : Option Connection × IoWorker) : Type 0 where
  pub chosen : Connection
  pub found : r.0 ≡ some chosen
  pub of_type : IsOf w type chosen
  pub valid : IsValid r.1
  pub conns : List Connection
  pub kept : lookup type r.1.connections_for_pick ≡ some conns
  pub in_turn : get_elem? conns (turn_of w type % length (ids_of w type)) ≡ some chosen
  pub turn : turn_of r.1 type ≡ suc (turn_of w type) % 2 ^ 64
  pub connections : r.1.connections ≡ w.connections

-- On an IO worker whose tables agree, with at least one connection of the type: PickConnection
-- returns a connection of the worker of that type, the one whose turn it is in the list that is
-- kept for the next choice; the turn moves on, and the tables agree.
pub pick_connection-IsValid :
    (w : IoWorker) (type : ℕ)
    → IsValid w
    → 0 < length (ids_of w type)
    → Returns (pick_connection w type) (Picked w type)
unfolding pick_connection
pick_connection-IsValid w type v some_ids =
    let n = length (ids_of w type) in
    let some_there : (n == 0) ≡ false = ground arith in
    rw some_there (
      >>=-Returns (pick_list w type) _ (Listed w type) (Picked w type) (pick_list-Listed w type v)
        λ conns listed.
          let i = turn_of w type % n in
          let inside : i < length conns =
            omega (arith, listed.0, mod-lt (turn_of w type) some_ids) in
          let (c, at) = get_elem?-lt conns i inside in
          rw at (record {
            chosen = c;
            found = refl;
            of_type = AllOf-get_elem? w type conns i c listed.1 at;
            valid = picked-IsValid w type conns v listed;
            conns = conns;
            kept = ground (arith, lookup-insert type type conns w.connections_for_pick);
            in_turn = at;
            turn = ground (
              arith,
              lookup-insert type type (suc (turn_of w type) % 2 ^ 64) w.connections_for_pick_rr,
            );
            connections = refl;
          }))
