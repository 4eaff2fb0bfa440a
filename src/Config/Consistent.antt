-- ===== src/Config/Consistent.antt =====
-- What `Load` leaves: both maps hold the same entries, under their own names and ids.
use nightcore.Prelude.Attempt.{◌>>=◌, IfSome, >>=-IfSome, require-IfSome, if-IfSome, IfSome-elim}
use nightcore.Prelude.Int.{ℤ, pos_part}
use nightcore.Prelude.Map.{lookup-insert, contains}
use nightcore.Prelude.Names.{
  Name, same_name_iff, find_name, find_name-put_name, has_name, bytes, starts_with,
}
use nightcore.Prelude.{
  ℕ, ◌≤◌, ◌<◌, ◌≡◌, refl, sym, subst, true, not, Option, none, some, List, [], ◌∷◌, if◌then◌else◌,
  arith, is_some, inl, inr, Option-cases,
}
use nightcore.Protocol.{max_func_id}
use nightcore.Config.Load.{
  JsonLib, string_at, int_at, workers_at, load_service, load_function, grpc_prefix, load_item,
  load_items, load, register, fresh_entry, validate_func_name, validate_func_id,
}
use nightcore.Config.Methods.{IsMethodTable, Loaded, load_service-Loaded, load_function-Loaded}
use nightcore.Config.{Entry, FuncConfig, find_by_func_name, find_by_func_id}

pub record IsConsistent (c : FuncConfig) : Type 0 where
  pub by_id :
      (func_id : ℕ) (e : Entry)
      → find_by_func_id c func_id ≡ some e
      → (e.func_id ≡ func_id)
        × (0 < func_id)
        × (func_id ≤ max_func_id)
        × IsMethodTable e
        × (find_by_func_name c e.func_name ≡ some e)
  pub by_name :
      (func_name : Name) (e : Entry)
      → find_by_func_name c func_name ≡ some e
      → (e.func_name ≡ func_name)
        × (validate_func_name func_name ≡ true)
        × (find_by_func_id c e.func_id ≡ some e)

-- What `Load` has checked of an entry when it registers it.
abbrev pub IsNew : FuncConfig → Entry → Type 0
IsNew c e =
    (validate_func_name e.func_name ≡ true)
    × (0 < e.func_id)
    × (e.func_id ≤ max_func_id)
    × (find_by_func_name c e.func_name ≡ none)
    × (find_by_func_id c e.func_id ≡ none)
    × IsMethodTable e

pub register-IsConsistent :
    (c : FuncConfig) (e : Entry) → IsConsistent c → IsNew c e → IsConsistent (register c e)
register-IsConsistent c e ok new = record {
  by_id = λ i f h. ground (
    arith,
    lookup-insert e.func_id i e c.entries_by_func_id,
    find_name-put_name e.func_name f.func_name e c.entries_by_func_name,
    find_name-put_name e.func_name e.func_name e c.entries_by_func_name,
    same_name_iff e.func_name f.func_name,
    same_name_iff e.func_name e.func_name,
    new,
    ok.by_id i f,
  );
  by_name = λ n f h. ground (
    arith,
    find_name-put_name e.func_name n e c.entries_by_func_name,
    lookup-insert e.func_id f.func_id e c.entries_by_func_id,
    lookup-insert e.func_id e.func_id e c.entries_by_func_id,
    same_name_iff e.func_name n,
    new,
    ok.by_name n f,
  );
}

not-is_some : {A : Type 0} (o : Option A) → not (is_some o) ≡ true → o ≡ none
not-is_some none h = refl
not-is_some (some a) h = ground arith

fresh_entry-IsMethodTable :
    (name : Name) (id : ℕ) (low high : ℤ) → IsMethodTable (fresh_entry name id low high)
unfolding find_name
fresh_entry-IsMethodTable name id low high = record {
  few = ground arith;
  ids = λ probe i. ground arith;
}

module _ {Json : Type 0} (lib : JsonLib Json) where
  -- What the item says of an entry.
  pub record Describes (item : Json) (e : Entry) : Type 0 where
    pub name : string_at lib item (bytes "funcName") ≡ some e.func_name
    pub id :
        (func_id : ℤ) × (int_at lib item (bytes "funcId") ≡ some func_id)
        × (e.func_id ≡ pos_part func_id)
    pub min : workers_at lib item (bytes "minWorkers") ≡ some e.min_workers
    pub max : workers_at lib item (bytes "maxWorkers") ≡ some e.max_workers

  -- A round of the loop registers one new entry, the one that the item describes.
  pub record Registers (c : FuncConfig) (item : Json) (c' : FuncConfig) : Type 0 where
    pub entry : Entry
    pub registered : c' ≡ register c entry
    pub new : IsNew c entry
    pub described : Describes item entry

  load_entry-Registers :
      (c : FuncConfig) (item : Json) (name : Name) (id low high : ℤ) (e : Entry)
      → validate_func_name name ≡ true
      → not (has_name name c.entries_by_func_name) ≡ true
      → validate_func_id id ≡ true
      → not (contains (pos_part id) c.entries_by_func_id) ≡ true
      → string_at lib item (bytes "funcName") ≡ some name
      → int_at lib item (bytes "funcId") ≡ some id
      → workers_at lib item (bytes "minWorkers") ≡ some low
      → workers_at lib item (bytes "maxWorkers") ≡ some high
      → Loaded (fresh_entry name (pos_part id) low high) e
      → Registers c item (register c e)
  load_entry-Registers c item name id low high e valid fresh_name id_ok fresh_id n i l h
        (table, head) =
      record {
        entry = e;
        registered = refl;
        new = (
          rw head.name valid,
          ground (arith, head.id),
          ground (arith, head.id),
          rw head.name (not-is_some _ fresh_name),
          rw head.id (not-is_some _ fresh_id),
          table,
        );
        described = record {
          name = rw head.name n;
          id = (id, i, head.id);
          min = rw head.min l;
          max = rw head.max h;
        };
      }

  pub load_item-Registers :
      (c : FuncConfig) (item : Json) → IfSome (load_item lib c item) (Registers c item)
  unfolding load_item
  load_item-Registers c item =
      let P = Registers c item in
      >>=-IfSome (string_at lib item (bytes "funcName")) _ P λ name n.
        require-IfSome (validate_func_name name) _ P λ valid.
          require-IfSome (not (has_name name c.entries_by_func_name)) _ P λ fresh_name.
            >>=-IfSome (int_at lib item (bytes "funcId")) _ P λ id i.
              require-IfSome (validate_func_id id) _ P λ id_ok.
                require-IfSome (not (contains (pos_part id) c.entries_by_func_id)) _ P λ fresh_id.
                  >>=-IfSome (workers_at lib item (bytes "minWorkers")) _ P λ low l.
                    >>=-IfSome (workers_at lib item (bytes "maxWorkers")) _ P λ high h.
                      let fresh = fresh_entry name (pos_part id) low high in
                      >>=-IfSome
                        (if starts_with name grpc_prefix
                          then load_service lib item fresh
                          else load_function lib item fresh)
                        _ P
                        λ e loaded.
                          load_entry-Registers c item name id low high e valid fresh_name id_ok
                            fresh_id n i l h
                            (IfSome-elim _ (Loaded fresh) e
                              (if-IfSome (starts_with name grpc_prefix) _ _ (Loaded fresh)
                                (λ _.
                                  load_service-Loaded lib item fresh
                                    (fresh_entry-IsMethodTable name (pos_part id) low high))
                                (λ _.
                                  load_function-Loaded lib item fresh
                                    (fresh_entry-IsMethodTable name (pos_part id) low high)))
                              loaded)

  load_items-IsConsistent :
      (items : List Json) (c : FuncConfig)
      → IsConsistent c
      → IsConsistent (load_items lib items c).1
  unfolding load_items
  load_items-IsConsistent [] c h = h
  load_items-IsConsistent (item ∷ items) c h = elim (Option-cases (load_item lib c item)) [
    | inl e ↦ rw (e, load_items) h
    | inr (c', e) ↦
        let r = IfSome-elim _ (Registers c item) c' (load_item-Registers c item) e in
        rw (e, load_items)
          (load_items-IsConsistent items c'
            (subst IsConsistent (sym r.registered) (register-IsConsistent c r.entry h r.new)))
  ]

  -- Load keeps a configuration consistent, whether it succeeds or fails part of the way: each
  -- entry stands under its own name and id in both maps, with a valid name, an id from 1 to 255,
  -- and at most 64 methods whose names differ and whose ids are their positions.
  pub load-IsConsistent :
      (json_contents : Name) (c : FuncConfig)
      → IsConsistent c
      → IsConsistent (load lib json_contents c).1
  unfolding load
  load-IsConsistent json_contents c h =
      elim (Option-cases (lib.parse json_contents >>= lib.elements)) [
        | inl e ↦ rw (e, load) h
        | inr (items, e) ↦ rw (e, load) (load_items-IsConsistent items c h)
      ]
