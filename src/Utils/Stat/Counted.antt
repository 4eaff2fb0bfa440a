-- ===== src/Utils/Stat/Counted.antt =====
-- src/common/stat.h: the reports of a `Counter` tell all that it counts.
use nightcore.Prelude.{
  ◌≡◌, refl, sym, ℕ, ◌+◌, ◌≤◌, ◌<◌, arith, Bool, true, false, Option, none, some, List, [], ◌∷◌,
  ltb, lt→ltb, ltb→lt, if◌then◌else◌,
}
use nightcore.Prelude.Int.{ℤ}
use nightcore.Prelude.Result.{Result, ok, Returns, ◌>>=◌, >>=-Returns}
use nightcore.Utils.Stat.{
  Counter, CounterReport, is_due, mark_report, counter_report, report_if_due, tick,
}

-- Reports one after the other: each starts at the value where the one before it ended.
pub data Chain : ℕ → List CounterReport → ℕ → Type 0 where
  done : {at_value : ℕ} → Chain at_value [] at_value
  next :
      (r : CounterReport) {rest : List CounterReport} {end_value : ℕ}
      → r.old_value < r.new_value
      → Chain r.new_value rest end_value
      → Chain r.old_value (r ∷ rest) end_value

-- Readings of the clock, and an amount.
abbrev pub Tick : Type 0
Tick = ℤ × ℤ × ℕ

abbrev pub total : List Tick → ℕ
total [] = 0
total ((now, later, delta) ∷ rest) = delta + total rest

abbrev pub ArePositive : List Tick → Type 0
ArePositive [] = Unit {0}
ArePositive ((now, later, delta) ∷ rest) = (1 ≤ delta) × ArePositive rest

abbrev prepend : Option CounterReport → List CounterReport → List CounterReport
prepend none reports = reports
prepend (some r) reports = r ∷ reports

-- Tick for each in turn, and the reports.
unfoldable pub ticks : List Tick → Counter → Result (List CounterReport × Counter)
ticks [] c = ok ([], c)
ticks ((now, later, delta) ∷ rest) c = do
  (report, c1) ← tick false now later delta c
  (reports, c2) ← ticks rest c1
  ok (prepend report reports, c2)

Fate : Counter → Option CounterReport × Counter → Type 0
Fate c (none, left) = left.last_report_value ≡ c.last_report_value
Fate c (some r, left) =
    (left.last_report_value ≡ c.value)
    × (r.old_value ≡ c.last_report_value)
    × (r.new_value ≡ c.value)
    × (c.last_report_value < c.value)

IsStep : Counter → Option CounterReport × Counter → Type 0
IsStep c r = (r.1.value ≡ c.value) × Fate c r

if_holds :
    {A : Type 0} (b : Bool) (x y : A) (P : A → Type 0)
    → (b ≡ true → P x)
    → P y
    → P (if b then x else y)
if_holds true x y P h k = h refl
if_holds false x y P h k = k

report_if_due-IsStep : (now later : ℤ) (c : Counter) → IsStep c (report_if_due now later c)
unfolding is_due mark_report IsStep Fate
report_if_due-IsStep now later c =
    let (due, timer) = is_due now c.report_timer in
    let checked : Counter = record c { report_timer = timer } in
    if_holds (ltb c.last_report_value c.value)
      (if due then counter_report later checked else (none, checked)) (none, c) (IsStep c)
      (λ e.
        if_holds due (counter_report later checked) (none, checked) (IsStep c)
          (λ _. (refl, (refl, refl, refl, ltb→lt c.last_report_value c.value e))) (refl, refl))
      (refl, refl)

step-Chain :
    (c : Counter) (r : Option CounterReport × Counter) (reports : List CounterReport) (last : ℕ)
    → IsStep c r
    → Chain r.1.last_report_value reports last
    → Chain c.last_report_value (prepend r.0 reports) last
unfolding IsStep Fate
step-Chain c (none, left) reports last (same, fate) chain = rw (fate) at chain
step-Chain c (some r, left) reports last (same, (ends, old, new, more)) chain =
    rw (sym old) (next r (rw (old, new) more) (rw (ends, sym new) at chain))

-- When all amounts are positive: however the readings of the clock are, Tick returns for each; in the
-- end the value has grown by their sum; and the reports go one after the other, each by more than
-- zero, from the value that was reported last before to the one that was reported last after.
pub ticks-Chain :
    (ts : List Tick) (c : Counter)
    → ArePositive ts
    → Returns (ticks ts c) (λ r.
      (r.1.value ≡ c.value + total ts) × Chain c.last_report_value r.0 r.1.last_report_value)
unfolding ticks tick IsStep Fate
ticks-Chain [] c h = (omega arith, done)
ticks-Chain ((now, later, delta) ∷ rest) c (h, hs) =
    let c1 : Counter = record c { value = c.value + delta } in
    let r = report_if_due now later c1 in
    let step = report_if_due-IsStep now later c1 in
    rw (lt→ltb 0 delta h) (
      >>=-Returns (ticks rest r.1) _ _ _ (ticks-Chain rest r.1 hs) (λ (reports, c2) (value, chain).
        (omega (arith, value, step.0), step-Chain c1 r reports c2.last_report_value step chain)))
