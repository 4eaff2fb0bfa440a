-- ===== src/Config/Methods.antt =====
-- The two tables of a service's methods agree.
use nightcore.Prelude.Attempt.{IfSome, >>=-IfSome, require-IfSome}
use nightcore.Prelude.Names.{
  Name, same_name_iff, find_name, put_name, find_name-put_name, has_name, bytes,
}
use nightcore.Prelude.{
  ℕ, zero, suc, ◌+◌, ◌≤◌, ◌≡◌, refl, ◌∙◌, ◌↔◌, true, not, none, some, List, [], ◌∷◌, ◌++◌, length,
  get_elem?, length-append, ltb, ◌==◌, if◌then◌else◌, arith,
}
use nightcore.Protocol.{max_method_id}
use nightcore.Config.Load.{JsonLib, load_methods, load_service, load_function, flag_at}
use nightcore.Config.{Entry}

-- The ids are the positions, so the names differ and there are at most 64.
pub record IsMethodTable (e : Entry) : Type 0 where
  pub few : length e.grpc_methods ≤ max_method_id + 1
  pub ids :
      (name : Name) (i : ℕ)
      → (find_name name e.grpc_method_ids ≡ some i) ↔ (get_elem? e.grpc_methods i ≡ some name)

-- The fields that are set before the optional ones.
pub record SameHead (d e : Entry) : Type 0 where
  pub name : e.func_name ≡ d.func_name
  pub id : e.func_id ≡ d.func_id
  pub min : e.min_workers ≡ d.min_workers
  pub max : e.max_workers ≡ d.max_workers

get_elem?-snoc :
    (names : List Name) (name : Name) (i : ℕ)
    → get_elem? (names ++ (name ∷ [])) i
      ≡ (if i == length names then some name else get_elem? names i)
get_elem?-snoc [] name zero = refl
get_elem?-snoc [] name (suc i) = ground arith
get_elem?-snoc (first ∷ names) name zero = ground arith
get_elem?-snoc (first ∷ names) name (suc i) = ground (arith, get_elem?-snoc names name i)

get_elem?-length : (names : List Name) → get_elem? names (length names) ≡ none
get_elem?-length [] = refl
get_elem?-length (first ∷ names) = get_elem?-length names

abbrev with_method : Entry → Name → Entry
with_method e name = record e {
  grpc_methods = e.grpc_methods ++ (name ∷ []);
  grpc_method_ids = put_name name (length e.grpc_methods) e.grpc_method_ids;
}

with_method-IsMethodTable :
    (e : Entry) (name : Name)
    → not (ltb max_method_id (length e.grpc_methods)) ≡ true
    → not (has_name name e.grpc_method_ids) ≡ true
    → IsMethodTable e
    → IsMethodTable (with_method e name)
with_method-IsMethodTable e name room new table = record {
  few = ground (arith, length-append e.grpc_methods (name ∷ []));
  ids = λ probe i. ground (
    arith,
    get_elem?-snoc e.grpc_methods name i,
    get_elem?-length e.grpc_methods,
    find_name-put_name name probe (length e.grpc_methods) e.grpc_method_ids,
    same_name_iff name probe,
    table.ids probe i,
    table.ids name i,
  );
}

abbrev pub Loaded : Entry → Entry → Type 0
Loaded fresh e = IsMethodTable e × SameHead fresh e

same_as :
    {a b c : Entry}
    → SameHead a b
    → c.func_name ≡ b.func_name
    → c.func_id ≡ b.func_id
    → c.min_workers ≡ b.min_workers
    → c.max_workers ≡ b.max_workers
    → SameHead a c
same_as h n i low high = record {
  name = n ∙ h.name;
  id = i ∙ h.id;
  min = low ∙ h.min;
  max = high ∙ h.max;
}

same_as_self : (e : Entry) → SameHead e e
same_as_self e = record { name = refl; id = refl; min = refl; max = refl }

module _ {Json : Type 0} (lib : JsonLib Json) where
  open lib use {elements, at, has_key, get_string, get_int, get_bool}

  load_methods-Loaded :
      (methods : List Json) (a e : Entry)
      → Loaded a e
      → IfSome (load_methods lib methods e) (Loaded a)
  unfolding load_methods
  load_methods-Loaded [] a e loaded = loaded
  load_methods-Loaded (method ∷ methods) a e loaded =
      require-IfSome (not (ltb max_method_id (length e.grpc_methods))) _ (Loaded a) λ room.
        >>=-IfSome (get_string method) _ (Loaded a) λ name _.
          require-IfSome (not (has_name name e.grpc_method_ids)) _ (Loaded a) λ new.
            load_methods-Loaded methods a (with_method e name) (
              with_method-IsMethodTable e name room new loaded.0,
              same_as loaded.1 refl refl refl refl,
            )

  pub load_service-Loaded :
      (item : Json) (e : Entry) → IsMethodTable e → IfSome (load_service lib item e) (Loaded e)
  unfolding load_service
  load_service-Loaded item e table =
      >>=-IfSome (at item (bytes "grpcMethods")) _ (Loaded e) λ grpc_methods _.
        >>=-IfSome (elements grpc_methods) _ (Loaded e) λ methods _.
          load_methods-Loaded methods e _ (
            record { few = table.few; ids = table.ids },
            same_as (same_as_self e) refl refl refl refl,
          )

  pub load_function-Loaded :
      (item : Json) (e : Entry) → IsMethodTable e → IfSome (load_function lib item e) (Loaded e)
  unfolding load_function
  load_function-Loaded item e table =
      >>=-IfSome (flag_at lib item (bytes "allowHttpGet")) _ (Loaded e) λ allow _.
        >>=-IfSome (flag_at lib item (bytes "qsAsInput")) _ (Loaded e) λ qs _. (
          record { few = table.few; ids = table.ids },
          same_as (same_as_self e) refl refl refl refl,
        )
