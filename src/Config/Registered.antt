-- ===== src/Config/Registered.antt =====
-- A load that succeeds has registered every item of the array, and forgotten nothing.
use nightcore.Prelude.Attempt.{IfSome-elim}
use nightcore.Prelude.Map.{lookup-insert}
use nightcore.Prelude.Names.{Name, same_name_iff, find_name-put_name}
use nightcore.Prelude.{
  ◌≡◌, refl, sym, subst, true, Option, none, some, List, [], ◌∷◌, arith, inl, inr, Option-cases,
}
use nightcore.Config.Consistent.{IsNew, Describes, Registers, load_item-Registers}
use nightcore.Config.Load.{JsonLib, load_item, load_items, load, register}
use nightcore.Config.{Entry, FuncConfig, find_by_func_name, find_by_func_id}

-- The entry is found under its name and under its id.
abbrev pub IsFound : FuncConfig → Entry → Type 0
IsFound c e = (find_by_func_name c e.func_name ≡ some e) × (find_by_func_id c e.func_id ≡ some e)

register-IsFound : (c : FuncConfig) (e : Entry) → IsFound (register c e) e
register-IsFound c e = (
  ground (
    arith,
    find_name-put_name e.func_name e.func_name e c.entries_by_func_name,
    same_name_iff e.func_name e.func_name,
  ),
  ground (arith, lookup-insert e.func_id e.func_id e c.entries_by_func_id),
)

register_keeps : (c : FuncConfig) (e f : Entry) → IsNew c e → IsFound c f → IsFound (register c e) f
register_keeps c e f new found = (
  ground (
    arith,
    new,
    found,
    find_name-put_name e.func_name f.func_name e c.entries_by_func_name,
    same_name_iff e.func_name f.func_name,
  ),
  ground (arith, new, found, lookup-insert e.func_id f.func_id e c.entries_by_func_id),
)

module _ {Json : Type 0} (lib : JsonLib Json) where
  -- An entry that the item describes is found.
  pub record IsLoaded (c : FuncConfig) (item : Json) : Type 0 where
    pub entry : Entry
    pub described : Describes lib item entry
    pub found : IsFound c entry

  abbrev pub AllLoaded : FuncConfig → List Json → Type 0
  AllLoaded c [] = Unit {0}
  AllLoaded c (item ∷ items) = IsLoaded c item × AllLoaded c items

  load_items_keeps :
      (items : List Json) (c : FuncConfig) (f : Entry)
      → IsFound c f
      → IsFound (load_items lib items c).1 f
  unfolding load_items
  load_items_keeps [] c f found = found
  load_items_keeps (item ∷ items) c f found = elim (Option-cases (load_item lib c item)) [
    | inl e ↦ rw (e, load_items) found
    | inr (c', e) ↦
        let r = IfSome-elim _ (Registers lib c item) c' (load_item-Registers lib c item) e in
        rw (e, load_items)
          (load_items_keeps items c' f
            (subst (λ d. IsFound d f) (sym r.registered) (register_keeps c r.entry f r.new found)))
  ]

  load_items-AllLoaded :
      (items : List Json) (c : FuncConfig)
      → (load_items lib items c).0 ≡ true
      → AllLoaded (load_items lib items c).1 items
  unfolding load_items
  load_items-AllLoaded [] c h = tt
  load_items-AllLoaded (item ∷ items) c h =
      go (load_item lib c item) refl (load_items-AllLoaded items)
    where
      go :
          (o : Option FuncConfig)
          → load_item lib c item ≡ o
          → ((d : FuncConfig)
              → (load_items lib items d).0 ≡ true
              → AllLoaded (load_items lib items d).1 items)
          → AllLoaded (load_items lib (item ∷ items) c).1 (item ∷ items)
      go none e rest = absurd (cc (rw (e, load_items) at h))
      go (some c') e rest =
          let r = IfSome-elim _ (Registers lib c item) c' (load_item-Registers lib c item) e in
          let same : (load_items lib (item ∷ items) c).1 ≡ (load_items lib items c').1 =
            rw (e, load_items) in
          subst (λ d. AllLoaded d (item ∷ items)) (sym same)
            (
              record {
                entry = r.entry;
                described = r.described;
                found = load_items_keeps items c' r.entry (
                    subst (λ d. IsFound d r.entry) (sym r.registered) (register-IsFound c r.entry));
              },
              rest c' (rw (e, load_items) at h),
            )

  -- When Load returns true for a text that is an array of items, then for each item there is an
  -- entry with its name, id and limits, -1 where there is none, and both lookups find that entry.
  pub load-AllLoaded :
      (json_contents : Name) (json : Json) (items : List Json) (c : FuncConfig)
      → lib.parse json_contents ≡ some json
      → lib.elements json ≡ some items
      → (load lib json_contents c).0 ≡ true
      → AllLoaded (load lib json_contents c).1 items
  unfolding load
  load-AllLoaded json_contents json items c p q h =
      rw (p, load, q) (load_items-AllLoaded items c (rw (p, load, q) at h))
