-- ===== src/Server/IoWorker/Join.antt =====
-- A connection that comes keeps the tables of an IO worker in agreement.
use nightcore.Prelude.{
  ℕ, ◌≡◌, ◌⊎◌, refl, ap, ◌∙◌, subst, arith, inl, inr, true, false, Bool-cases, Option-cases, Option,
  none, some, List, [], ◌∷◌, ◌++◌, length, length-append, ◌==◌, if◌then◌else◌,
}
use nightcore.Prelude.Map.{lookup, insert, lookup-insert}
use nightcore.Prelude.Result.{Returns}
use nightcore.Server.IoWorker.{
  Connection, IoWorker, has_id, add_id, ids_of, join_type, is_stopping, new_connection,
}
use nightcore.Server.IoWorker.Valid.{IsOf, AllOf, IsValid, AllOf-map, AllOf-append, has_id-append}

-- The worker with a connection more.
abbrev joined : IoWorker → Connection → IoWorker
joined w c = record w { connections = insert c.id c w.connections }

ℕ_cases : (a b : ℕ) → ((a == b) ≡ true) ⊎ ((a == b) ≡ false)
ℕ_cases a b = Bool-cases (a == b)

module _ (w : IoWorker) (c : Connection) (v : IsValid w)
    (fresh : lookup c.id w.connections ≡ none) where
  joined_still :
      (t : ℕ) (d : Connection) → IsOf w t d → lookup d.id (insert c.id c w.connections) ≡ some d
  joined_still t d (l, k) = ground (arith, l, fresh, lookup-insert c.id d.id c w.connections)

  not_listed : (t : ℕ) → has_id c.id (ids_of w t) ≡ false
  not_listed t = elim (Bool-cases (has_id c.id (ids_of w t))) [
    | inr missing ↦ missing
    | inl found ↦ let (d, l, k) = v.held t c.id found in absurd (ground (arith, l, fresh))
  ]

  join_plain-IsValid : c.type ≡ none → IsValid (joined w c)
  join_plain-IsValid plain = record {
    own = λ id d h. ground (arith, h, v.own id d, lookup-insert c.id id c w.connections);
    listed =
        λ t d h. ground (arith, h, plain, lookup-insert c.id d.id c w.connections, v.listed t d);
    held = λ t id h.
        let (d, l, k) = v.held t id h in
        (d, ground (arith, l, fresh, lookup-insert c.id id c w.connections), k);
    cached = λ t conns h.
        let known = v.cached t conns h in
        (known.0, AllOf-map w (joined w c) t conns (λ d k. (joined_still t d k, k.1)) known.1);
  }

  module _ (type : ℕ) (of_type : c.type ≡ some type) where
    new_ids :
        (t : ℕ)
        → ids_of (join_type (joined w c) c type) t
          ≡ (if type == t then ids_of w type ++ (c.id ∷ []) else ids_of w t)
    unfolding join_type
    new_ids t = ground (
      arith,
      not_listed type,
      lookup-insert type t (add_id c.id (ids_of w type)) w.connections_by_type,
    )

    new_cache :
        (t : ℕ)
        → lookup t (join_type (joined w c) c type).connections_for_pick
          ≡ elim (lookup t w.connections_for_pick) [
            | none ↦ none
            | some conns ↦ some (if type == t then conns ++ (c ∷ []) else conns)
          ]
    unfolding join_type
    new_cache t = elim (Option-cases (lookup type w.connections_for_pick)) [
      | inl e ↦ rw (e, join_type) (ground (arith, e))
      | inr (cs, e) ↦
          rw (e, join_type)
            (ground (arith, e, lookup-insert type t (cs ++ (c ∷ [])) w.connections_for_pick))
    ]

    joined-IsOf : (t : ℕ) (d : Connection) → IsOf w t d → IsOf (join_type (joined w c) c type) t d
    unfolding join_type
    joined-IsOf t d k = (joined_still t d k, k.1)

    new_IsOf : IsOf (join_type (joined w c) c type) type c
    unfolding join_type
    new_IsOf = (ground (arith, lookup-insert c.id c.id c w.connections), of_type)

    abbrev come : IoWorker
    come = join_type (joined w c) c type

    come_connections : come.connections ≡ insert c.id c w.connections
    unfolding join_type
    come_connections = refl

    come_lookup :
        (id : ℕ)
        → lookup id come.connections ≡ (if c.id == id then some c else lookup id w.connections)
    come_lookup id = ap (lookup id) come_connections ∙ lookup-insert c.id id c w.connections

    come_held :
        (t id : ℕ)
        → has_id id (ids_of come t) ≡ true
        → (d : Connection) × (lookup id come.connections ≡ some d) × (d.type ≡ some t)
    come_held t id h = elim (Bool-cases (has_id id (ids_of w t))) [
      | inl old ↦
          let (d, l, k) = v.held t id old in (d, ground (arith, l, fresh, come_lookup id), k)
      | inr new ↦ (
        c,
        ground (
          arith,
          new,
          new_ids t,
          come_lookup id,
          has_id-append id c.id (ids_of w type),
          ap (has_id id) (new_ids t),
          h,
        ),
        ground (
          arith,
          new,
          of_type,
          has_id-append id c.id (ids_of w type),
          ap (has_id id) (new_ids t),
          h,
        ),
      )
    ]

    come_cached :
        (t : ℕ) (cs conns : List Connection)
        → lookup t w.connections_for_pick ≡ some cs
        → lookup t come.connections_for_pick ≡ some conns
        → (length conns ≡ length (ids_of come t)) × AllOf come t conns
    come_cached t cs conns old h =
        let known = v.cached t cs old in
        let kept = AllOf-map w come t cs (joined-IsOf t) known.1 in
        elim (ℕ_cases type t) [
          | inl same ↦
              let q : cs ++ (c ∷ []) ≡ conns = ground (arith, old, h, same, new_cache t) in
              let t_is : type ≡ t = ground (arith, same) in
              (
                ground (
                  arith,
                  known.0,
                  ap length q,
                  length-append cs (c ∷ []),
                  same,
                  t_is,
                  ap length (new_ids t),
                  length-append (ids_of w type) (c.id ∷ []),
                ),
                subst (AllOf come t) q
                    (AllOf-append come t cs c kept (new_IsOf.0, of_type ∙ ap some t_is)),
              )
          | inr other ↦
              let q : cs ≡ conns = ground (arith, old, h, other, new_cache t) in
              (
                ground (arith, known.0, ap length q, other, ap length (new_ids t)),
                subst (AllOf come t) q kept,
              )
        ]

    join-IsValid : IsValid come
    join-IsValid = record {
      own = λ id d h. ground (arith, h, come_lookup id, v.own id d);
      listed = λ t d h. ground (
        arith,
        h,
        of_type,
        come_lookup d.id,
        ap (has_id d.id) (new_ids t),
        has_id-append d.id c.id (ids_of w type),
        v.listed t d,
      );
      held = come_held;
      cached = λ t conns h. elim (Option-cases (lookup t w.connections_for_pick)) [
        | inl e ↦ absurd (ground (arith, e, h, new_cache t))
        | inr (cs, e) ↦ come_cached t cs conns e h
      ];
    }

-- When a connection with a new id comes to an IO worker whose tables agree, NewConnection returns:
-- the connection is entered, the tables agree, and it is closed at once exactly when the worker is
-- stopping.
pub new_connection-IsValid :
    (w : IoWorker) (c : Connection)
    → IsValid w
    → lookup c.id w.connections ≡ none
    → Returns (new_connection w c) (λ r.
      IsValid r.1 × (r.1.connections ≡ insert c.id c w.connections) × (r.0 ≡ is_stopping w.state))
unfolding new_connection
new_connection-IsValid w c v fresh = go c.type refl
  where
    go :
        (type : Option ℕ)
        → c.type ≡ type
        → Returns (new_connection w c) (λ r.
          IsValid r.1
          × (r.1.connections ≡ insert c.id c w.connections)
          × (r.0 ≡ is_stopping w.state))
    go none e = simp (fresh, e) (join_plain-IsValid w c v fresh e, refl, refl)
    go (some type) e =
        simp (fresh, e) (join-IsValid w c v fresh type e, come_connections w c v fresh type e, refl)
