-- ===== src/Utils/RankingBst/Order.antt =====
-- src/utils/bst.h: the tree as the sorted list of its values.
use nightcore.Prelude.{
  ℕ, zero, suc, ◌+◌, ◌-◌, ◌<◌, ◌≤◌, ◌≡◌, refl, sym, ap, ◌∙◌, subst, arith, Bool, true, false, ◌||◌,
  Bool-cases, inl, inr, none, some, List, [], ◌∷◌, ◌++◌, ◌==◌, leb, ltb, ltb→lt, if◌then◌else◌,
  length, length-append, get_elem?,
}
use nightcore.Prelude.Result.{ok, err, null_pointer, Returns, Returns-map, >>=-Returns, ◌>>=◌}
use nightcore.Utils.RankingBst.{
  Node, null, node, RankingBst, size_of, is_null, clear, new_node, maintain, insert_internal,
  insert, get_kth_element_internal, get_kth_element,
}

-- What the code needs of `<`: it is asymmetric, and "not less" is transitive.
pub record IsOrder {T : Type 0} (lt : T → T → Bool) : Type 0 where
  pub asym : (x y : T) → lt x y ≡ true → lt y x ≡ false
  pub not_lt_trans : (x y z : T) → lt x y ≡ false → lt y z ≡ false → lt x z ≡ false

module _ {T : Type 0} where
  -- The values in the order of the tree.
  abbrev pub inorder : Node T → List T
  inorder null = []
  inorder (node l r v s) = inorder l ++ v ∷ inorder r

  abbrev pub IsSized : Node T → Type 0
  IsSized null = Unit {0}
  IsSized (node l r v s) = IsSized l × IsSized r × (s ≡ 1 + size_of l + size_of r)

  -- No value of the list is less than `x`.
  abbrev pub AllAbove : (T → T → Bool) → T → List T → Type 0
  AllAbove lt x [] = Unit {0}
  AllAbove lt x (y ∷ ys) = (lt y x ≡ false) × AllAbove lt x ys

  abbrev pub IsSorted : (T → T → Bool) → List T → Type 0
  IsSorted lt [] = Unit {0}
  IsSorted lt (x ∷ xs) = AllAbove lt x xs × IsSorted lt xs

  -- Behind all values that are not greater.
  unfoldable pub insert_sorted : (T → T → Bool) → T → List T → List T
  insert_sorted lt v [] = v ∷ []
  insert_sorted lt v (x ∷ xs) =
      let rest = insert_sorted lt v xs in if lt v x then v ∷ x ∷ xs else x ∷ rest

  -- No pointer in the pool is null.
  abbrev pub NoNull : List (Node T) → Type 0
  NoNull [] = Unit {0}
  NoNull (n ∷ ns) = (is_null n ≡ false) × NoNull ns

  pub record IsValid (lt : T → T → Bool) (b : RankingBst T) : Type 0 where
    pub sized : IsSized b.root
    pub sorted : IsSorted lt (inorder b.root)
    pub pool : NoNull b.node_pool

  size-inorder : (t : Node T) → IsSized t → size_of t ≡ length (inorder t)
  size-inorder null h = refl
  size-inorder (node l r v s) h = omega (
    arith,
    h.2,
    size-inorder l h.0,
    size-inorder r h.1,
    length-append (inorder l) (v ∷ inorder r),
  )

  insert_sorted-left :
      (lt : T → T → Bool) (v x : T) (xs ys : List T)
      → lt v x ≡ true
      → insert_sorted lt v (xs ++ x ∷ ys) ≡ insert_sorted lt v xs ++ x ∷ ys
  unfolding insert_sorted
  insert_sorted-left lt v x [] ys h = rw h refl
  insert_sorted-left lt v x (y ∷ xs) ys h = elim (Bool-cases (lt v y)) [
    | inl less ↦ rw less refl
    | inr more ↦ rw more (ap (λ l. y ∷ l) (insert_sorted-left lt v x xs ys h))
  ]

  insert_sorted-right :
      (lt : T → T → Bool) (v x : T) (xs ys : List T)
      → IsOrder lt
      → IsSorted lt (xs ++ x ∷ ys)
      → lt v x ≡ false
      → insert_sorted lt v (xs ++ x ∷ ys) ≡ xs ++ x ∷ insert_sorted lt v ys
  unfolding insert_sorted
  insert_sorted-right lt v x [] ys o s h = rw h refl
  insert_sorted-right lt v x (y ∷ xs) ys o s h =
      rw (o.not_lt_trans v x y h (middle xs s.0))
        (ap (λ l. y ∷ l) (insert_sorted-right lt v x xs ys o s.1 h))
    where
      middle : (zs : List T) → AllAbove lt y (zs ++ x ∷ ys) → lt x y ≡ false
      middle [] a = a.0
      middle (z ∷ zs) a = middle zs a.1

  AllAbove-insert :
      (lt : T → T → Bool) (v x : T) (xs : List T)
      → AllAbove lt x xs
      → lt v x ≡ false
      → AllAbove lt x (insert_sorted lt v xs)
  unfolding insert_sorted
  AllAbove-insert lt v x [] a h = (h, tt)
  AllAbove-insert lt v x (y ∷ xs) a h = elim (Bool-cases (lt v y)) [
    | inl less ↦ rw less (h, a)
    | inr more ↦ rw more (a.0, AllAbove-insert lt v x xs a.1 h)
  ]

  AllAbove-trans :
      (lt : T → T → Bool) (v x : T) (xs : List T)
      → IsOrder lt
      → lt x v ≡ false
      → AllAbove lt x xs
      → AllAbove lt v xs
  AllAbove-trans lt v x [] o h a = tt
  AllAbove-trans lt v x (y ∷ xs) o h a =
      (o.not_lt_trans y x v a.0 h, AllAbove-trans lt v x xs o h a.1)

  insert_sorted-IsSorted :
      (lt : T → T → Bool) (v : T) (xs : List T)
      → IsOrder lt
      → IsSorted lt xs
      → IsSorted lt (insert_sorted lt v xs)
  unfolding insert_sorted
  insert_sorted-IsSorted lt v [] o s = (tt, tt)
  insert_sorted-IsSorted lt v (x ∷ xs) o s = elim (Bool-cases (lt v x)) [
    | inl less ↦ rw less ((o.asym v x less, AllAbove-trans lt v x xs o (o.asym v x less) s.0), s)
    | inr more ↦ rw more (AllAbove-insert lt v x xs s.0 more, insert_sorted-IsSorted lt v xs o s.1)
  ]

  IsSorted-split :
      (lt : T → T → Bool) (xs ys : List T)
      → IsSorted lt (xs ++ ys)
      → IsSorted lt xs × IsSorted lt ys
  IsSorted-split lt [] ys s = (tt, s)
  IsSorted-split lt (x ∷ xs) ys s =
      let rest = IsSorted-split lt xs ys s.1 in ((front xs s.0, rest.0), rest.1)
    where
      front : (zs : List T) → AllAbove lt x (zs ++ ys) → AllAbove lt x zs
      front [] a = tt
      front (z ∷ zs) a = (a.0, front zs a.1)

  insert_internal_lem :
      (lt : T → T → Bool) (t : Node T) (v : T)
      → IsOrder lt
      → IsSized t
      → IsSorted lt (inorder t)
      → (inorder (insert_internal lt t v (node null null v 1)) ≡ insert_sorted lt v (inorder t))
        × IsSized (insert_internal lt t v (node null null v 1))
  unfolding insert_internal maintain insert_sorted
  insert_internal_lem lt null v o h s = (refl, (tt, tt, refl))
  insert_internal_lem lt (node l r x n) v o h s =
      let parts = IsSorted-split lt (inorder l) (x ∷ inorder r) s in
      elim (Bool-cases (lt v x)) [
        | inl less ↦
            let below = insert_internal_lem lt l v o h.0 parts.0 in
            rw less (
              ap (λ a. a ++ x ∷ inorder r) below.0
                  ∙ sym (insert_sorted-left lt v x (inorder l) (inorder r) less),
              (below.1, h.1, refl),
            )
        | inr more ↦
            let below = insert_internal_lem lt r v o h.1 parts.1.1 in
            rw more (
              ap (λ a. inorder l ++ x ∷ a) below.0
                  ∙ sym (insert_sorted-right lt v x (inorder l) (inorder r) o s more),
              (h.0, below.1, refl),
            )
      ]

  new_node_lem :
      (v : T) (pool : List (Node T))
      → NoNull pool
      → Returns (new_node v pool) (λ r. (r.0 ≡ node null null v 1) × NoNull r.1)
  unfolding new_node
  new_node_lem v [] h = (refl, tt)
  new_node_lem v (null ∷ pool) h = cc (h.0)
  new_node_lem v (node null null x s ∷ pool) h = (refl, h.1)
  new_node_lem v (node null (node a b y n) x s ∷ pool) h = (refl, (refl, h.1))
  new_node_lem v (node (node a b y n) null x s ∷ pool) h = (refl, (refl, h.1))
  new_node_lem v (node (node a b y n) (node a' b' y' n') x s ∷ pool) h = (refl, (refl, (refl, h.1)))

  -- When < is an order, inserting into a valid tree returns: the values in order are the old ones
  -- with the new one behind those that are not greater, and the tree stays valid.
  pub insert_lem :
      (lt : T → T → Bool) (b : RankingBst T) (v : T)
      → IsOrder lt
      → IsValid lt b
      → Returns
          (insert lt b v)
          (λ c. (inorder c.root ≡ insert_sorted lt v (inorder b.root)) × IsValid lt c)
  unfolding insert
  insert_lem lt b v o h =
      >>=-Returns (new_node v b.node_pool) _ _ _ (new_node_lem v b.node_pool h.pool) (λ r made.
        let done = insert_internal_lem lt b.root v o h.sized h.sorted in
        rw made.0 (
          done.0,
          record {
            sized = done.1;
            sorted =
                subst (IsSorted lt) (sym done.0)
                  (insert_sorted-IsSorted lt v (inorder b.root) o h.sorted);
            pool = made.1;
          },
        ))

  get_elem?-append :
      (xs : List T) (x : T) (ys : List T) (k : ℕ)
      → get_elem? (xs ++ x ∷ ys) k ≡ (
          if ltb k (length xs)
          then get_elem? xs k
          else if k == length xs
          then some x
          else get_elem? ys (k - (length xs + 1)))
  get_elem?-append [] x ys zero = refl
  get_elem?-append [] x ys (suc k) = ground arith
  get_elem?-append (z ∷ xs) x ys zero = ground arith
  get_elem?-append (z ∷ xs) x ys (suc k) = ground (arith, get_elem?-append xs x ys k)

  get_kth_internal_lem :
      (t : Node T) (k : ℕ)
      → IsSized t
      → k < size_of t
      → Returns (get_kth_element_internal t k) (λ v. some v ≡ get_elem? (inorder t) k)
  unfolding get_kth_element_internal
  get_kth_internal_lem null k h lt = absurd (omega arith)
  get_kth_internal_lem (node l r v s) k h lt =
      let here : get_elem? (inorder (node l r v s)) k ≡ (
          if ltb k (size_of l)
          then get_elem? (inorder l) k
          else if k == size_of l
          then some v
          else get_elem? (inorder r) (k - (size_of l + 1))) =
        rw (size-inorder l h.0) (get_elem?-append (inorder l) v (inorder r) k) in
      elim (Bool-cases (ltb k (size_of l))) [
        | inl left ↦ rw left (
            Returns-map (get_kth_element_internal l k)
              (get_kth_internal_lem l k h.0 (ltb→lt k (size_of l) left))
              (λ w e. e ∙ sym (rw left at here)))
        | inr beyond ↦ elim (Bool-cases (k == size_of l)) [
          | inl it ↦ rw (beyond, it) (sym (rw (beyond, it) at here))
          | inr right ↦
              rw (beyond, right)
                (Returns-map (get_kth_element_internal r (k - (size_of l + 1)))
                  (get_kth_internal_lem r (k - (size_of l + 1)) h.1 (inside beyond right))
                  (λ w e. e ∙ sym (rw (beyond, right) at here)))
        ]
      ]
    where
      inside :
          ltb k (size_of l) ≡ false → (k == size_of l) ≡ false → k - (size_of l + 1) < size_of r
      inside beyond right = let total = h.2 in ground arith

  get_elem?-none : (xs : List T) (k : ℕ) → length xs ≤ k → get_elem? xs k ≡ none
  get_elem?-none [] k h = refl
  get_elem?-none (x ∷ xs) zero h = absurd (omega arith)
  get_elem?-none (x ∷ xs) (suc k) h = get_elem?-none xs k (omega arith)

  -- GetKthElement returns: on a valid tree it finds the value with kth values before it in order,
  -- or nothing if there are not so many.
  pub get_kth_element_lem :
      (lt : T → T → Bool) (b : RankingBst T) (kth : ℕ)
      → IsValid lt b
      → Returns (get_kth_element b kth) (λ o. o ≡ get_elem? (inorder b.root) kth)
  unfolding get_kth_element
  get_kth_element_lem lt b kth h = go b.root h.sized
    where
      go :
          (t : Node T)
          → IsSized t
          → Returns
              (if is_null t || leb (size_of t) kth
                then ok none
                else get_kth_element_internal t kth >>= λ value. ok (some value))
              (λ o. o ≡ get_elem? (inorder t) kth)
      go null sized = refl
      go (node l r v s) sized = elim (Bool-cases (leb s kth)) [
        | inl short ↦
            let length_is = size-inorder (node l r v s) sized in
            rw short (sym (get_elem?-none (inorder (node l r v s)) kth (ground arith)))
        | inr enough ↦ rw enough (
            >>=-Returns (get_kth_element_internal (node l r v s) kth) _ _ _
              (get_kth_internal_lem (node l r v s) kth sized (ground arith)) (λ value e. e))
      ]

  -- Clearing an empty tree puts a null pointer into the pool, and the next insertion follows it.
  pub insert-clear_empty :
      (lt : T → T → Bool) (b : RankingBst T) (v : T)
      → b.root ≡ null
      → insert lt (clear b) v ≡ err null_pointer
  unfolding insert clear new_node
  insert-clear_empty lt b v h = rw h refl
