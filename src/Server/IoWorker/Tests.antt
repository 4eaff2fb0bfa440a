-- ===== src/Server/IoWorker/Tests.antt =====
-- A worker with two connections of type 3, and one without a type.
use nightcore.Prelude.{
  ◌≡◌, refl, subst, inl, inr, ◌==◌, Bool-cases, length, arith, none, some, [], ◌∷◌,
}
use nightcore.Prelude.Map.{lookup}
use nightcore.Prelude.Result.{Returns}
use nightcore.Server.IoWorker.{ids_of, Connection, IoWorker, running, pick_connection}
use nightcore.Server.IoWorker.Picks.{Picked, pick_connection-IsValid}
use nightcore.Server.IoWorker.Valid.{AllOf, IsValid}

abbrev first : Connection
first = record { id = 1; type = some 3 }

abbrev second : Connection
second = record { id = 2; type = some 3 }

abbrev plain : Connection
plain = record { id = 5; type = none }

abbrev worker : IoWorker
worker = record {
  state = running;
  connections = (1, first) ∷ (2, second) ∷ (5, plain) ∷ [];
  connections_by_type = (3, 1 ∷ 2 ∷ []) ∷ [];
  connections_for_pick = (3, first ∷ second ∷ []) ∷ [];
  connections_for_pick_rr = (3, 7) ∷ [];
  connections_on_closing = 0;
  scheduled_functions = [];
}

worker-IsValid : IsValid worker
unfolding lookup
worker-IsValid = record {
  own = λ id c h. ground arith;
  listed = λ type c h. ground arith;
  held = λ type id h. elim (Bool-cases (1 == id)) [
    | inl e ↦ (first, ground (arith, e), ground (arith, h))
    | inr e ↦ (second, ground (arith, h, e), ground (arith, h))
  ];
  cached = λ type conns h.
      let q : (first ∷ second ∷ []) ≡ conns = ground (arith, h) in
      let t_is : 3 ≡ type = ground (arith, h) in
      subst (λ cs. (length cs ≡ length (ids_of worker type)) × AllOf worker type cs) q
        (subst (λ t. (2 ≡ length (ids_of worker t)) × AllOf worker t (first ∷ second ∷ [])) t_is
          (refl, ((refl, refl), ((refl, refl), tt))));
}

abbrev third : Connection
third = record { id = 4; type = some 3 }

pick_connection-IsValid_example : Returns (pick_connection worker 3) (Picked worker 3)
unfolding lookup
pick_connection-IsValid_example = pick_connection-IsValid worker 3 worker-IsValid (omega arith)
