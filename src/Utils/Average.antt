-- ===== src/Utils/Average.antt =====
-- src/utils/exp_moving_avg.h: `ExpMovingAvg` and `ExpMovingAvgExt`. Floating point is a parameter:
-- `Doubles` names the operations that the code calls, and no law of them is used.
use nightcore.Prelude.{ℕ, suc, Bool, ◌&&◌, ltb, if◌then◌else◌}
use nightcore.Prelude.Int.{ℤ, pos, negsuc, ltb_ℤ, leb_ℤ, ◌-ℤ◌}

-- `scaled n k` is the literal n · 10^(-k); `round x` is `narrow_cast<size_t>(0.5 + x)`.
pub record Doubles : Type 1 where
  pub F : Type 0
  pub scaled : ℤ → ℕ → F
  pub add : F → F → F
  pub sub : F → F → F
  pub mul : F → F → F
  pub div : F → F → F
  pub log : F → F
  pub exp : F → F
  pub pow : F → F → F
  pub lt : F → F → Bool
  pub le : F → F → Bool
  pub eq : F → F → Bool
  pub round : F → ℕ

module _ (D : Doubles) where
  abbrev pub of_ℤ : ℤ → D.F
  of_ℤ z = D.scaled z 0

  abbrev pub of_ℕ : ℕ → D.F
  of_ℕ n = of_ℤ (pos n)

  abbrev pub positive : D.F → Bool
  positive x = D.lt (of_ℕ 0) x

  pub record ExpMovingAvg : Type 0 where
    pub alpha : D.F
    pub min_samples : ℕ
    pub avg : D.F
    pub n_samples : ℕ

  -- The defaults of the constructor but for `alpha`.
  abbrev pub new_avg : D.F → ExpMovingAvg
  new_avg alpha = record { alpha = alpha; min_samples = 128; avg = of_ℕ 0; n_samples = 0 }

  unfoldable pub add_sample : ExpMovingAvg → D.F → ExpMovingAvg
  add_sample a sample =
      if ltb a.n_samples a.min_samples
      then record a {
        avg = D.add a.avg (D.div sample (of_ℕ a.min_samples));
        n_samples = suc a.n_samples;
      }
      else record a {
        avg = D.add a.avg (D.mul a.alpha (D.sub sample a.avg));
        n_samples = suc a.n_samples;
      }

  unfoldable pub get_value : ExpMovingAvg → D.F
  get_value a = if ltb a.n_samples a.min_samples then of_ℕ 0 else a.avg

  unfoldable pub reset : ExpMovingAvg → ExpMovingAvg
  reset a = record a { avg = of_ℕ 0; n_samples = 0 }

  pub record ExpMovingAvgExt : Type 0 where
    pub tau_us : D.F
    pub alpha : D.F
    pub p : D.F
    pub min_samples : ℕ
    pub avg : D.F
    pub n_samples : ℕ
    pub last_timestamp_us : ℤ

  abbrev pub new_avg_ext : D.F → D.F → D.F → ExpMovingAvgExt
  new_avg_ext tau_ms alpha p = record {
    tau_us = D.mul tau_ms (of_ℕ 1000);
    alpha = alpha;
    p = p;
    min_samples = 128;
    avg = of_ℕ 0;
    n_samples = 0;
    last_timestamp_us = negsuc 0;
  }

  -- The sample on the scale on which it is averaged.
  abbrev pub scale_sample : ExpMovingAvgExt → D.F → D.F
  scale_sample a sample = if D.eq a.p (of_ℕ 0) then D.log sample else D.pow sample a.p

  unfoldable pub weight : ExpMovingAvgExt → ℤ → D.F
  weight a timestamp =
      if positive a.tau_us
      then D.sub (of_ℕ 1)
          (D.exp (D.div (of_ℤ (pos 0 -ℤ (timestamp -ℤ a.last_timestamp_us))) a.tau_us))
      else a.alpha

  unfoldable pub add_sample_ext : ExpMovingAvgExt → ℤ → D.F → ExpMovingAvgExt
  unfolding weight
  add_sample_ext a timestamp sample =
      if D.lt sample (of_ℕ 0)
      then a
      else if ltb_ℤ (pos 0) a.last_timestamp_us && leb_ℤ timestamp a.last_timestamp_us
      then a
      else record a {
        avg =
            (if ltb a.n_samples a.min_samples
              then D.add a.avg (D.div (scale_sample a sample) (of_ℕ a.min_samples))
              else D.add a.avg (D.mul (weight a timestamp) (D.sub (scale_sample a sample) a.avg)));
        n_samples = suc a.n_samples;
        last_timestamp_us = timestamp;
      }

  unfoldable pub get_value_ext : ExpMovingAvgExt → D.F
  get_value_ext a =
      if ltb a.n_samples a.min_samples
      then of_ℕ 0
      else if D.eq a.p (of_ℕ 0)
      then D.exp a.avg
      else D.pow a.avg (D.div (of_ℕ 1) a.p)

  unfoldable pub reset_ext : ExpMovingAvgExt → ExpMovingAvgExt
  reset_ext a = record a { avg = of_ℕ 0; n_samples = 0; last_timestamp_us = negsuc 0 }
