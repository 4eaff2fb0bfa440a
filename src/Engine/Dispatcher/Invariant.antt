-- ===== src/Engine/Dispatcher/Invariant.antt =====
-- src/engine/dispatcher.cpp: the invariant of the dispatcher's tables, and how the small steps of
-- its methods keep it.
use nightcore.Prelude.{
  ℕ, ◌≡◌, ◌≢◌, refl, ap, arith, ◌⊎◌, inl, inr, true, false, Bool-cases, some, List, [], ◌∷◌, ◌==◌,
  ==_iff,
}
use nightcore.Prelude.Map.{lookup, erase, contains, lookup-insert, lookup-erase}
use nightcore.Protocol.{FuncCall, full_call_id}
use nightcore.Engine.World.{FuncWorker}
use nightcore.Engine.Dispatcher.State.{Dispatcher, PendingFuncCall}
use nightcore.Engine.Dispatcher.Dispatch.{assign, push_idle, set_pending}
use nightcore.Engine.Dispatcher.Events.{forget_call, add_worker}

abbrev pub In : ℕ → List ℕ → Type 0
In a [] = ⊥
In a (x ∷ xs) = (a ≡ x) ⊎ In a xs

-- Client `c` runs the call with this id.
abbrev pub RunsId : Dispatcher → ℕ → ℕ → Type 0
RunsId d c id =
    (call : FuncCall) × (lookup c d.running_workers ≡ some call) × (full_call_id call ≡ id)

-- Client `c` runs a call or is in the idle list.
abbrev pub IsCounted : Dispatcher → ℕ → Type 0
IsCounted d c = (contains c d.running_workers ≡ true) ⊎ In c d.idle_workers

-- Workers stand under their own client ids; a call that is assigned, but for those of `Old`, is the
-- one that its worker runs; and every connected worker runs a call or is in the idle list.
pub record Almost (Old : ℕ → Type 0) (d : Dispatcher) : Type 0 where
  pub keyed : (c : ℕ) (k : FuncWorker) → lookup c d.workers ≡ some k → k.client_id ≡ c
  pub runs : (id c : ℕ) → lookup id d.assigned_workers ≡ some c → Old id ⊎ RunsId d c id
  pub counted : (c : ℕ) (k : FuncWorker) → lookup c d.workers ≡ some k → IsCounted d c

abbrev pub Inv : Dispatcher → Type 0
Inv = Almost (λ id. ⊥)

-- The same while `client` runs nothing and waits in no list, with the calls of `Old` still assigned
-- to it.
pub record Loose (Old : ℕ → Type 0) (client : ℕ) (d : Dispatcher) : Type 0 where
  pub keyed : (c : ℕ) (k : FuncWorker) → lookup c d.workers ≡ some k → k.client_id ≡ c
  pub runs :
      (id c : ℕ) → lookup id d.assigned_workers ≡ some c → Old id ⊎ ((c ≢ client) × RunsId d c id)
  pub counted :
      (c : ℕ) (k : FuncWorker) → lookup c d.workers ≡ some k → (c ≡ client) ⊎ IsCounted d c
  pub free : contains client d.running_workers ≡ false

module _ {Old : ℕ → Type 0} {client : ℕ} {d : Dispatcher} where
  pub assign-Almost : (call : FuncCall) → Loose Old client d → Almost Old (assign d client call)
  unfolding assign
  assign-Almost call l = record {
    keyed = l.keyed;
    runs = λ id c h. elim (Bool-cases (full_call_id call == id)) [
      | inl same ↦
          let made = lookup-insert (full_call_id call) id client d.assigned_workers in
          let here = lookup-insert client c call d.running_workers in
          inr (call, ground arith, ground arith)
      | inr other ↦
          let made = lookup-insert (full_call_id call) id client d.assigned_workers in
          elim (l.runs id c (ground arith)) [
            | inl old ↦ inl old
            | inr (ne, (before, there, same)) ↦
                let here = lookup-insert client c call d.running_workers in
                inr (before, ground arith, same)
          ]
    ];
    counted = λ c k h.
        let here = lookup-insert client c call d.running_workers in
        elim (l.counted c k h) [
          | inl new ↦ inl (ground arith)
          | inr (inl busy) ↦ inl (ground arith)
          | inr (inr idle) ↦ inr idle
        ];
  }

  pub push_idle-Almost : Loose Old client d → Almost Old (push_idle d client)
  unfolding push_idle
  push_idle-Almost l = record {
    keyed = l.keyed;
    runs = λ id c h. elim (l.runs id c h) [ inl old ↦ inl old | inr (ne, r) ↦ inr r ];
    counted = λ c k h. elim (l.counted c k h) [
      | inl new ↦ inr (inl new)
      | inr (inl busy) ↦ inl busy
      | inr (inr idle) ↦ inr (inr idle)
    ];
  }

  pub set_pending-Loose :
      (ps : List PendingFuncCall) → Loose Old client d → Loose Old client (set_pending d ps)
  set_pending-Loose ps l = record {
    keyed = l.keyed;
    runs = l.runs;
    counted = l.counted;
    free = l.free;
  }

-- A worker whose call has come back: only that call is still assigned to it.
pub finish-Loose :
    (d : Dispatcher) (c : FuncCall) (client : ℕ)
    → Inv d
    → lookup (full_call_id c) d.assigned_workers ≡ some client
    → Loose
        (λ id. id ≡ full_call_id c)
        client
        (record d { running_workers = erase client d.running_workers })
finish-Loose d c client v h = record {
  keyed = v.keyed;
  runs = λ id k e. elim (v.runs id k e) [
    | inl bad ↦ absurd bad
    | inr (call, there, same) ↦ elim (v.runs (full_call_id c) client h) [
      | inl bad ↦ absurd bad
      | inr (mine, here, own) ↦ elim (Bool-cases (client == k)) [
        | inl it ↦ inl (ground arith)
        | inr other ↦
            let left = lookup-erase client k d.running_workers in
            inr (ground arith, (call, ground arith, same))
      ]
    ]
  ];
  counted = λ k worker e.
      let left = lookup-erase client k d.running_workers in
      elim (Bool-cases (client == k)) [
        | inl it ↦ inl (ground arith)
        | inr other ↦ elim (v.counted k worker e) [
          | inl busy ↦ inr (inl (ground arith))
          | inr idle ↦ inr (inr idle)
        ]
      ];
  free = rw (lookup-erase client client d.running_workers, (==_iff client client).1 refl);
}

pub forget_call-Inv :
    (d : Dispatcher) (c : FuncCall) → Almost (λ id. id ≡ full_call_id c) d → Inv (forget_call d c)
unfolding forget_call
forget_call-Inv d c v = record {
  keyed = v.keyed;
  runs = λ id k e.
      let left = lookup-erase (full_call_id c) id d.assigned_workers in
      elim (v.runs id k (ground arith)) [ inl old ↦ absurd (ground arith) | inr r ↦ inr r ];
  counted = v.counted;
}

-- The tables once a new worker is entered, before it has anything to do.
pub add_worker-Loose :
    (d : Dispatcher) (worker : FuncWorker)
    → Inv d
    → contains worker.client_id d.running_workers ≡ false
    → Loose (λ id. ⊥) worker.client_id (add_worker d worker)
unfolding add_worker
add_worker-Loose d worker v free = record {
  keyed = λ c k h.
      let made = lookup-insert worker.client_id c worker d.workers in
      elim (Bool-cases (worker.client_id == c)) [
        | inl same ↦ ground arith
        | inr other ↦ v.keyed c k (ground arith)
      ];
  runs = λ id c h. elim (v.runs id c h) [
    | inl bad ↦ absurd bad
    | inr (call, there, same) ↦
        inr ((λ it. cc (ap (λ k. contains k d.running_workers) it, there)), (call, there, same))
  ];
  counted = λ c k h.
      let made = lookup-insert worker.client_id c worker d.workers in
      elim (Bool-cases (worker.client_id == c)) [
        | inl same ↦ inl (ground arith)
        | inr other ↦ inr (v.counted c k (ground arith))
      ];
  free = free;
}

-- Every connected worker runs a call or is in this list.
abbrev pub CountedIn : Dispatcher → List ℕ → Type 0
CountedIn d l =
    (c : ℕ) (k : FuncWorker)
    → lookup c d.workers ≡ some k
    → (contains c d.running_workers ≡ true) ⊎ In c l
