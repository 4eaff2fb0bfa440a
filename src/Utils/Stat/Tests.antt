-- ===== src/Utils/Stat/Tests.antt =====
-- A collector that reports at two samples and more, with fixed-point numbers and insertion sort.
use mathlib.Core.List.{Perm}
use mathlib.Core.List.Perm
use nightcore.Prelude.{
  ◌≡◌, refl, ℕ, ◌+◌, ◌-◌, ◌*◌, ◌/◌, ◌^◌, Bool, true, false, List, [], ◌∷◌, ltb, leb, ◌==◌,
  if◌then◌else◌, map,
}
use nightcore.Prelude.Int.{pos, pos_part, ◌-ℤ◌}
use nightcore.Prelude.Result.{Returns}
use nightcore.Utils.Average.{Doubles}
use nightcore.Utils.Stat.{
  Collector, CollectorReport, add_sample, new_timer, is_due, mark_report, send_report, build_report,
  percentile,
}
use nightcore.Utils.Stat.Collected.{Sample, Splits, add_samples, add_samples-Splits}

-- Thousandths.
abbrev fixed : Doubles
fixed = record {
  F = ℕ;
  scaled = λ n k. pos_part n * 1000 / 10 ^ k;
  add = λ x y. x + y;
  sub = λ x y. x - y;
  mul = λ x y. x * y / 1000;
  div = λ x y. x * 1000 / y;
  log = λ x. x;
  exp = λ x. x;
  pow = λ x y. x ^ (y / 1000);
  lt = ltb;
  le = leb;
  eq = λ x y. x == y;
  round = λ x. (x + 500) / 1000;
}

unfoldable place : ℕ → List ℕ → List ℕ
place x [] = x ∷ []
place x (y ∷ ys) = let rest = place x ys in if leb x y then x ∷ y ∷ ys else y ∷ rest

unfoldable sort : List ℕ → List ℕ
sort [] = []
sort (x ∷ xs) = place x (sort xs)

if-Perm : (b : Bool) (xs ys zs : List ℕ) → Perm xs zs → Perm ys zs → Perm (if b then xs else ys) zs
if-Perm true xs ys zs p q = p
if-Perm false xs ys zs p q = q

place-perm : (x : ℕ) (xs : List ℕ) → Perm (place x xs) (x ∷ xs)
unfolding place
place-perm x [] = Perm.rfl
place-perm x (y ∷ ys) =
    if-Perm (leb x y) _ _ _ Perm.rfl (Perm.trans (Perm.cons y (place-perm x ys)) (Perm.swap x y ys))

sort-perm : (xs : List ℕ) → Perm (sort xs) xs
unfolding sort
sort-perm [] = Perm.nil
sort-perm (x ∷ xs) = Perm.trans (place-perm x (sort xs)) (Perm.cons x (sort-perm xs))

abbrev collector : Collector ℕ
collector = record {
  min_report_samples = 2;
  force_enabled = true;
  report_timer = new_timer 1;
  samples = [];
}

abbrev five : List (Sample ℕ)
five =
    (pos 0, pos 0, 9)
    ∷ (pos 500, pos 500, 4)
    ∷ (pos 2000, pos 2100, 7)
    ∷ (pos 2500, pos 2500, 1)
    ∷ (pos 9000, pos 9100, 3)
    ∷ []

add_samples-Splits_example :
    Returns
      (add_samples fixed sort true five collector)
      (λ r. Splits 2 (9 ∷ 4 ∷ 7 ∷ 1 ∷ 3 ∷ []) r.0 r.1.samples)
add_samples-Splits_example = add_samples-Splits fixed sort sort-perm true five collector refl

-- The size and the lower percentiles of each report, and the samples that wait.
abbrev summary : List (CollectorReport ℕ) × Collector ℕ → List (ℕ × ℕ × ℕ) × List ℕ
summary r = (map (λ x. (x.n_samples, x.report.p30, x.report.p50)) r.0, r.1.samples)

two_reports :
    Returns
      (add_samples fixed sort true five collector)
      (λ r. summary r ≡ ((3, 7, 9) ∷ (2, 3, 3) ∷ [], []))
unfolding add_samples add_sample is_due mark_report send_report build_report percentile sort place
    ◌-ℤ◌
two_reports = refl
