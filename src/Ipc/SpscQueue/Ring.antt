-- ===== src/Ipc/SpscQueue/Ring.antt =====
-- src/ipc/spsc_queue-inl.h: the cells from the head to the tail, around the end of the ring.
use nightcore.Prelude.{
  ℕ, zero, suc, ◌+◌, ◌-◌, ◌≤◌, ◌<◌, ◌≡◌, ◌≢◌, refl, ap, ◌∙◌, arith, true, false, not, some, List,
  [], ◌∷◌, ◌++◌, append_assoc, append-nil, ◌==◌, ==_iff, leb, ltb, if◌then◌else◌, length, get_elem?,
  set, take, drop, length-take, length-drop, length-append,
}
use nightcore.Ipc.SpscQueue.{is_sleeping, flip, awake_head, consumer_sleep_mask, next_index}

pub plain : (word : ℕ) → word < consumer_sleep_mask → awake_head word ≡ word
plain word h = ground arith

pub awake_again :
    (word : ℕ)
    → awake_head word < consumer_sleep_mask
    → awake_head (awake_head word) ≡ awake_head word
awake_again word h = ground arith

pub is_sleeping-lt : (word : ℕ) → word < consumer_sleep_mask → is_sleeping word ≡ false
is_sleeping-lt word h = ground arith

-- Setting the bit.
pub awake-sleep :
    (word : ℕ)
    → awake_head word < consumer_sleep_mask
    → (awake_head (if is_sleeping word then word else flip word) ≡ awake_head word)
      × (is_sleeping (if is_sleeping word then word else flip word) ≡ true)
awake-sleep word h = (ground arith, ground arith)

pub next_index-lt : (n i : ℕ) → i < n → next_index n i < n
unfolding next_index
next_index-lt n i h = ground arith

-- The next index is the head exactly when all cells but one are in use.
pub room :
    (n h t used : ℕ)
    → h < n
    → t < n
    → 2 ≤ n
    → used ≡ (if leb h t then t - h else n - h + t)
    → ltb (suc used) n ≡ not (next_index n t == h)
unfolding next_index
room n h t used p q two e = ground arith

pub below_mask : (n h : ℕ) → h < n → n ≤ consumer_sleep_mask → h < consumer_sleep_mask
below_mask n h p q = omega arith

pub ==-false : (a b : ℕ) → (a == b) ≡ false → a ≢ b
==-false a b h e = cc ((==_iff a b).1 e, h)

module _ {T : Type 0} where
  -- The cells from `head` up to `tail`, around the end.
  unfoldable pub between : ℕ → ℕ → List T → List T
  between head tail cells =
      if leb head tail
      then take (tail - head) (drop head cells)
      else drop head cells ++ take tail cells

  pub between-empty : (h t : ℕ) (cells : List T) → h ≡ t → between h t cells ≡ []
  unfolding between
  between-empty h t cells e = ground arith

  drop-set_below : (xs : List T) (h i : ℕ) (v : T) → i < h → drop h (set xs i v) ≡ drop h xs
  drop-set_below xs zero i v lt = absurd (omega arith)
  drop-set_below [] (suc h) i v lt = refl
  drop-set_below (x ∷ xs) (suc h) zero v lt = refl
  drop-set_below (x ∷ xs) (suc h) (suc i) v lt = drop-set_below xs h i v (omega arith)

  drop-set_above :
      (xs : List T) (h i : ℕ) (v : T) → h ≤ i → drop h (set xs i v) ≡ set (drop h xs) (i - h) v
  drop-set_above xs zero i v le = ap (λ k. set xs k v) (omega arith)
  drop-set_above [] (suc h) i v le = refl
  drop-set_above (x ∷ xs) (suc h) zero v le = absurd (omega arith)
  drop-set_above (x ∷ xs) (suc h) (suc i) v le =
      drop-set_above xs h i v (omega arith) ∙ ap (λ k. set (drop h xs) k v) (omega arith)

  take-set_last :
      (xs : List T) (i : ℕ) (v : T)
      → i < length xs
      → take (suc i) (set xs i v) ≡ take i xs ++ v ∷ []
  take-set_last [] i v lt = absurd (omega arith)
  take-set_last (x ∷ xs) zero v lt = refl
  take-set_last (x ∷ xs) (suc i) v lt = ap (λ l. x ∷ l) (take-set_last xs i v (omega arith))

  take-set_all :
      (xs : List T) (i : ℕ) (v : T) → suc i ≡ length xs → set xs i v ≡ take i xs ++ v ∷ []
  take-set_all [] i v e = absurd (omega arith)
  take-set_all (x ∷ []) zero v e = refl
  take-set_all (x ∷ y ∷ xs) zero v e = absurd (omega arith)
  take-set_all (x ∷ xs) (suc i) v e = ap (λ l. x ∷ l) (take-set_all xs i v (omega arith))

  pub length-between :
      (n h t : ℕ) (cells : List T)
      → length cells ≡ n
      → h < n
      → t < n
      → length (between h t cells) ≡ (if leb h t then t - h else n - h + t)
  unfolding between
  length-between n h t cells e p q = ground (
    arith,
    length-take (t - h) (drop h cells),
    length-drop h cells,
    length-take t cells,
    length-append (drop h cells) (take t cells),
  )

  pub between-push :
      (n h t : ℕ) (cells : List T) (v : T)
      → length cells ≡ n
      → h < n
      → t < n
      → next_index n t ≢ h
      → between h (next_index n t) (set cells t v) ≡ between h t cells ++ v ∷ []
  unfolding between next_index
  between-push n h t cells v e p q ne = ground (
    arith,
    length-drop h cells,
    drop-set_above cells h t v,
    drop-set_below cells h t v,
    take-set_last (drop h cells) (t - h) v,
    take-set_all (drop h cells) (t - h) v,
    take-set_last cells t v,
    append_assoc (drop h cells) (take t cells) (v ∷ []),
    append-nil (drop h (set cells t v)),
  )

  drop-get :
      (xs : List T) (h : ℕ)
      → h < length xs
      → (v : T) × (get_elem? xs h ≡ some v) × (drop h xs ≡ v ∷ drop (suc h) xs)
  drop-get [] h lt = absurd (omega arith)
  drop-get (x ∷ xs) zero lt = (x, refl, refl)
  drop-get (x ∷ xs) (suc h) lt = drop-get xs h (omega arith)

  take-cons : (k : ℕ) (v : T) (xs : List T) → 0 < k → take k (v ∷ xs) ≡ v ∷ take (k - 1) xs
  take-cons zero v xs h = absurd (omega arith)
  take-cons (suc k) v xs h = ap (λ j. v ∷ take j xs) (omega arith)

  drop-all : (xs : List T) (k : ℕ) → k ≡ length xs → drop k xs ≡ []
  drop-all [] zero e = refl
  drop-all [] (suc k) e = refl
  drop-all (x ∷ xs) zero e = absurd (omega arith)
  drop-all (x ∷ xs) (suc k) e = drop-all xs k (omega arith)

  pub between-pop :
      (n h t : ℕ) (cells : List T)
      → length cells ≡ n
      → h < n
      → t < n
      → h ≢ t
      → (v : T) × (get_elem? cells h ≡ some v)
        × (between h t cells ≡ v ∷ between (next_index n h) t cells)
  unfolding between next_index
  between-pop n h t cells e p q ne =
      let (v, there, first) = drop-get cells h (omega arith) in
      let one = take-cons (t - h) v (drop (suc h) cells) in
      let fewer : t - suc h ≡ t - h - 1 = omega arith in
      let ended = drop-all cells (suc h) in (v, there, ground arith)
