-- ===== src/Utils/Stat/Collected.antt =====
-- src/common/stat.h: `StatisticsCollector` reports each sample once.
use mathlib.Core.Logic.{∥∥₁_elim}
use mathlib.Core.List.{Mem, Memᴰ, Perm, Permᴰ}
use mathlib.Core.List.Perm
use native.Mathlib.Nat.{ℕ_set}
use nightcore.Prelude.{
  ◌≡◌, refl, sym, subst, ap, ℕ, zero, suc, ◌≤◌, ◌<◌, arith, Bool, true, false, not, ◌&&◌, Option,
  none, some, List, [], ◌∷◌, ◌++◌, append_assoc, append-nil, length, length-append, get_elem?,
  get_elem?-lt, leb, leb→le, if◌then◌else◌,
}
use nightcore.Prelude.Int.{ℤ}
use nightcore.Prelude.Result.{
  Result, ok, err, out_of_bounds, Returns, ◌>>=◌, >>=-Returns, if-Returns,
}
use nightcore.Utils.Average.{Doubles}
use nightcore.Utils.Stat.{
  is_due, mark_report, Report, Collector, CollectorReport, clamp_index, percentile_index,
  percentile, build_report, send_report, send_if_due, add_sample,
}

module _ {T : Type 0} where
  Permᴰ-length : {xs ys : List T} → Permᴰ xs ys → length xs ≡ length ys
  Permᴰ-length Permᴰ.nil = refl
  Permᴰ-length (Permᴰ.cons e d) = ap suc (Permᴰ-length d)
  Permᴰ-length (Permᴰ.swap e f) = refl
  Permᴰ-length (Permᴰ.trans d e) = omega (arith, Permᴰ-length d, Permᴰ-length e)

  length-perm : {xs ys : List T} → Perm xs ys → length xs ≡ length ys
  length-perm p = ∥∥₁_elim p (ℕ_set _ _) Permᴰ-length

  get_elem?-Mem : (xs : List T) (i : ℕ) (x : T) → get_elem? xs i ≡ some x → Memᴰ x xs
  get_elem?-Mem [] i x h = absurd (ground arith)
  get_elem?-Mem (y ∷ ys) zero x h = Memᴰ.head (ground arith)
  get_elem?-Mem (y ∷ ys) (suc i) x h = Memᴰ.tail (get_elem?-Mem ys i x h)

  -- The six percentiles are samples.
  unfoldable pub IsOf : List T → Report T → Type 0
  IsOf batch r =
      Mem r.p30 batch
      × Mem r.p50 batch
      × Mem r.p70 batch
      × Mem r.p90 batch
      × Mem r.p99 batch
      × Mem r.p99_9 batch

clamp_index-lt : (n i : ℕ) → 1 ≤ n → clamp_index n i < n
clamp_index-lt n i h = ground (arith, h)

module _ {T : Type 0} (D : Doubles) where
  percentile-Mem :
      (xs : List T) (p : D.F) → 1 ≤ length xs → Returns (percentile D xs p) (λ x. Mem x xs)
  unfolding percentile
  percentile-Mem xs p h =
      let (x, e) =
        get_elem?-lt xs (percentile_index D (length xs) p) (clamp_index-lt (length xs) _ h) in
      subst (λ o. Returns (elim o [ none ↦ err out_of_bounds | some y ↦ ok y ]) (λ y. Mem y xs))
        (sym e) ∣ get_elem?-Mem xs (percentile_index D (length xs) p) x e ∣₁

  percentile-then :
      (xs : List T) (p : D.F) (k : T → Result (Report T))
      → 1 ≤ length xs
      → ((x : T) → Mem x xs → Returns (k x) (IsOf xs))
      → Returns (percentile D xs p >>= k) (IsOf xs)
  percentile-then xs p k h next =
      >>=-Returns (percentile D xs p) k (λ x. Mem x xs) (IsOf xs) (percentile-Mem xs p h) next

  build_report-IsOf : (xs : List T) → 1 ≤ length xs → Returns (build_report D xs) (IsOf xs)
  unfolding build_report IsOf
  build_report-IsOf xs h = percentile-then xs _ _ h λ a a_in. percentile-then xs _ _ h λ b b_in.
      percentile-then xs _ _ h λ c c_in. percentile-then xs _ _ h λ d d_in.
        percentile-then xs _ _ h
          λ e e_in. percentile-then xs _ _ h λ f f_in. (a_in, b_in, c_in, d_in, e_in, f_in)

if-Returns_given :
    {A : Type 0} (b : Bool) (x y : Result A) (P : A → Type 0)
    → (b ≡ true → Returns x P)
    → Returns y P
    → Returns (if b then x else y) P
if-Returns_given true x y P h k = h refl
if-Returns_given false x y P h k = k

-- Samples of a collector, as they were reported, and those that wait.
pub data Splits {T : Type 0} (least : ℕ) : List T → List (CollectorReport T) → List T → Type 0 where
  waiting : {xs : List T} → Splits least xs [] xs
  reported :
      (batch rest : List T) {r : CollectorReport T} {rs : List (CollectorReport T)} {last : List T}
      → least ≤ length batch
      → r.n_samples ≡ length batch
      → IsOf batch r.report
      → Splits least rest rs last
      → Splits least (batch ++ rest) (r ∷ rs) last

-- Readings of the clock, and a sample.
abbrev pub Sample : Type 0 → Type 0
Sample T = ℤ × ℤ × T

abbrev pub samples_of : {T : Type 0} → List (Sample T) → List T
samples_of [] = []
samples_of ((now, later, x) ∷ rest) = x ∷ samples_of rest

abbrev pub prepend : {A B : Type 0} → Option A → List A × B → List A × B
prepend none r = r
prepend (some a) r = (a ∷ r.0, r.1)

module _ {T : Type 0} (D : Doubles) (sort : List T → List T) where
  -- AddSample for each sample in turn, and the reports.
  unfoldable pub add_samples :
      Bool → List (Sample T) → Collector T → Result (List (CollectorReport T) × Collector T)
  add_samples disable_stat [] c = ok ([], c)
  add_samples disable_stat ((now, later, x) ∷ rest) c = do
    (report, c1) ← add_sample D sort disable_stat now later x c
    more ← add_samples disable_stat rest c1
    ok (prepend report more)

module _ {T : Type 0} (D : Doubles) (sort : List T → List T)
    (sort_perm : (xs : List T) → Perm (sort xs) xs) where
  -- A report of all the samples of `c`, after which none is left, or all are.
  Fate : Collector T → Option (CollectorReport T) × Collector T → Type 0
  Fate c (none, left) = left.samples ≡ c.samples
  Fate c (some r, left) =
      (left.samples ≡ [])
      × (c.min_report_samples ≤ length c.samples)
      × (r.n_samples ≡ length c.samples)
      × IsOf c.samples r.report

  IsStep : Collector T → Option (CollectorReport T) × Collector T → Type 0
  IsStep c r =
      (r.1.min_report_samples ≡ c.min_report_samples)
      × (r.1.force_enabled ≡ c.force_enabled)
      × Fate c r

  sorted-IsOf : (xs : List T) (r : Report T) → IsOf (sort xs) r → IsOf xs r
  unfolding IsOf
  sorted-IsOf xs r (a, b, c, d, e, f) = (back a, back b, back c, back d, back e, back f)
    where
      back : {x : T} → Mem x (sort xs) → Mem x xs
      back m = (Perm.mem_iff (sort_perm xs)).0 m

  send_report-IsStep :
      (later : ℤ) (c : Collector T)
      → 1 ≤ length c.samples
      → c.min_report_samples ≤ length c.samples
      → Returns (send_report D sort later c) (IsStep c)
  unfolding send_report mark_report IsStep Fate
  send_report-IsStep later c h enough =
      let same = length-perm (sort_perm c.samples) in
      >>=-Returns (build_report D (sort c.samples)) _ (IsOf (sort c.samples)) (IsStep c)
        (build_report-IsOf D (sort c.samples) (omega (arith, h, same)))
        (λ r of_sorted. (refl, refl, (refl, enough, same, sorted-IsOf c.samples r of_sorted)))

  send_if_due-IsStep :
      (now later : ℤ) (c : Collector T)
      → 1 ≤ length c.samples
      → Returns (send_if_due D sort now later c) (IsStep c)
  unfolding is_due IsStep Fate
  send_if_due-IsStep now later c h =
      let (due, timer) = is_due now c.report_timer in
      let checked : Collector T = record c { report_timer = timer } in
      if-Returns_given (leb c.min_report_samples (length c.samples)) _ _ (IsStep c)
        (λ e.
          if-Returns due _ _ (IsStep c)
            (send_report-IsStep later checked h (leb→le c.min_report_samples (length c.samples) e))
            (refl, refl, refl))
        (refl, refl, refl)

  add_sample-IsStep :
      (now later : ℤ) (x : T) (c : Collector T) (disable_stat : Bool)
      → disable_stat && not c.force_enabled ≡ false
      → Returns
          (add_sample D sort disable_stat now later x c)
          (IsStep (record c { samples = c.samples ++ x ∷ [] }))
  unfolding add_sample
  add_sample-IsStep now later x c disable_stat on = rw on (
      send_if_due-IsStep now later (record c { samples = c.samples ++ x ∷ [] })
        (omega (arith, length-append c.samples (x ∷ []))))

  step-Splits :
      (c : Collector T) (x : T) (rest : List T) (report : Option (CollectorReport T))
      (c1 : Collector T) (more : List (CollectorReport T) × Collector T)
      → IsStep (record c { samples = c.samples ++ x ∷ [] }) (report, c1)
      → Splits c1.min_report_samples (c1.samples ++ rest) more.0 more.1.samples
      → Splits c.min_report_samples
          (c.samples ++ x ∷ rest)
          (prepend report more).0
          (prepend report more).1.samples
  unfolding IsStep Fate
  step-Splits c x rest none c1 more (least, on, fate) split =
      rw (fate, least, append_assoc c.samples (x ∷ []) rest) at split
  step-Splits c x rest (some r) c1 more (least, on, (none_left, enough, n, of_batch)) split =
      subst (λ xs. Splits c.min_report_samples xs (r ∷ more.0) more.1.samples)
        (append_assoc c.samples (x ∷ []) rest)
        (reported (c.samples ++ x ∷ []) rest enough n of_batch (rw (none_left, least) at split))

  -- When the collector is on and sorting permutes: however the readings of the clock are,
  -- AddSample returns for each of any samples; the samples that were there and these are, in
  -- order, the samples of one report after the other and those that wait at the end; and each
  -- report has as many samples as it says and at least the smallest number for a report, and its
  -- percentiles are among them.
  pub add_samples-Splits :
      (disable_stat : Bool) (xs : List (Sample T)) (c : Collector T)
      → disable_stat && not c.force_enabled ≡ false
      → Returns
          (add_samples D sort disable_stat xs c)
          (λ r. Splits c.min_report_samples (c.samples ++ samples_of xs) r.0 r.1.samples)
  unfolding add_samples IsStep
  add_samples-Splits disable_stat [] c on = rw (append-nil c.samples) waiting
  add_samples-Splits disable_stat ((now, later, x) ∷ rest) c on =
      >>=-Returns (add_sample D sort disable_stat now later x c) _
        (IsStep (record c { samples = c.samples ++ x ∷ [] })) _
        (add_sample-IsStep now later x c disable_stat on)
        (λ (report, c1) step.
          >>=-Returns (add_samples D sort disable_stat rest c1) _ _ _
            (add_samples-Splits disable_stat rest c1 (rw (step.1) on))
            (λ more split. step-Splits c x (samples_of rest) report c1 more step split))
