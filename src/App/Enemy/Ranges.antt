-- ===== src/App/Enemy/Ranges.antt =====
-- `enemy_get` of src/app/enemy.c over the range sensors of src/drivers/vl53l0x.c.
use nsumo_video.Prelude.{
  if-is_true, get_or, ℕ, ◌≡◌, refl, ap, ◌∙◌, Bool, true, false, List, [], ◌∷◌,
}
use nsumo_video.Drivers.Vl53l0x.{
  Idx, idx_value, RangeResult, value_5, StatusMultiple, out_of_range, I2cDriver, Sensors, Run,
  returns, asserts, hangs, Proc, then_run, ◌⨟◌,
}
use nsumo_video.Drivers.Vl53l0x.Ranging.{is_measuring, vl53l0x_start_measuring_multiple}
use nsumo_video.Drivers.Vl53l0x.Multiple.{
  Reading, is_not_started, block_until_done, start_if_needed, read_started,
  vl53l0x_read_range_multiple,
}
use nsumo_video.Drivers.Vl53l0x.Restart.{cached, read_range_multiple-start_measuring}
use nsumo_video.App.Types.{Enemy}
use nsumo_video.App.Enemy.{RangeReading, no_enemy, enemy_get}

abbrev is_failed : RangeResult → Bool
is_failed RangeResult.ok = false
is_failed _ = true

-- What `enemy_get` takes from the call of `vl53l0x_read_range_multiple`.
unfoldable pub range_reading : Reading → RangeReading
range_reading r = record {
  failed = is_failed r.result;
  front = get_or r.ranges (idx_value Idx.front) 0;
  front_left = get_or r.ranges (idx_value Idx.front_left) 0;
  front_right = get_or r.ranges (idx_value Idx.front_right) 0;
}

unfoldable pub seen_in : {S : Type 0} → Run (Reading × Sensors S) → Run (Enemy × Sensors S)
unfolding range_reading
seen_in (returns (r, s)) = returns (enemy_get (range_reading r), s)
seen_in asserts = asserts
seen_in hangs = hangs

module _ {S : Type 0} (i2c : I2cDriver S) (polls : ℕ) (interrupted : Bool) where
  -- `garbage` is what the stack holds where `ranges` is.
  unfoldable pub enemy_get_ranges : List ℕ → Sensors S → Run (Enemy × Sensors S)
  enemy_get_ranges garbage s = seen_in (
      vl53l0x_read_range_multiple i2c polls interrupted
        (record { result = RangeResult.ok; ranges = garbage; fresh_values = false }) s)

-- `latest_ranges` at the start of the program.
abbrev pub initial_ranges : List ℕ
initial_ranges = out_of_range ∷ out_of_range ∷ out_of_range ∷ out_of_range ∷ out_of_range ∷ []

module _ {S : Type 0} (i2c : I2cDriver S) (polls : ℕ) (interrupted : Bool) where
  seen_in-failed :
      (before : Reading) (t : Sensors S) (e : RangeResult) (q : Proc S)
      → is_failed e ≡ true
      → seen_in (read_started i2c polls interrupted before (then_run (returns (e, t)) q))
        ≡ returns (no_enemy, t)
  unfolding read_started enemy_get seen_in
  seen_in-failed before t RangeResult.ok q h = cc
  seen_in-failed before t RangeResult.error_i2c q h = refl
  seen_in-failed before t RangeResult.error_boot q h = refl
  seen_in-failed before t RangeResult.error_spad q h = refl
  seen_in-failed before t RangeResult.error_measure_ongoing q h = refl
  seen_in-failed before t value_5 q h = refl

  start_if_needed-not_started :
      (s t : Sensors S) (e : RangeResult)
      → s.status_multiple ≡ StatusMultiple.not_started
      → vl53l0x_start_measuring_multiple i2c polls s ≡ returns (e, t)
      → start_if_needed i2c polls interrupted s
        ≡ then_run (returns (e, t)) (block_until_done interrupted)
  unfolding start_if_needed ◌⨟◌
  start_if_needed-not_started s t e n h =
      if-is_true (is_not_started s.status_multiple)
        ((vl53l0x_start_measuring_multiple i2c polls ⨟ block_until_done interrupted) s)
        (returns (RangeResult.ok, s)) (ap is_not_started n)
      ∙ ap (λ r. then_run r (block_until_done interrupted)) h

  -- The first call, where the start of the measurements fails.
  first_call :
      (s t : Sensors S) (e : RangeResult) (garbage : List ℕ)
      → s.initialized ≡ true
      → s.status_multiple ≡ StatusMultiple.not_started
      → is_failed e ≡ true
      → vl53l0x_start_measuring_multiple i2c polls s ≡ returns (e, t)
      → enemy_get_ranges i2c polls interrupted garbage s ≡ returns (no_enemy, t)
  unfolding enemy_get_ranges vl53l0x_read_range_multiple
  first_call s t e garbage i n f h =
      ap seen_in (if-is_true _ _ asserts i)
      ∙ ap (λ r. seen_in (read_started i2c polls interrupted (cached garbage) r))
          (start_if_needed-not_started s t e n h)
      ∙ seen_in-failed (cached garbage) t e (block_until_done interrupted) f

  -- The first measurement of a run, with the ranges that the program starts with, where a transfer
  -- fails: `enemy_get` sees no enemy, and neither does any later call until the interrupt of the
  -- front sensor, since such a call changes nothing.
  pub enemy_get-failed_start :
      (s t : Sensors S) (e : RangeResult) (garbage later : List ℕ)
      → s.initialized ≡ true
      → s.status_multiple ≡ StatusMultiple.not_started
      → s.latest_ranges ≡ initial_ranges
      → is_failed e ≡ true
      → vl53l0x_start_measuring_multiple i2c polls s ≡ returns (e, t)
      → (enemy_get_ranges i2c polls interrupted garbage s ≡ returns (no_enemy, t))
        × (enemy_get_ranges i2c polls interrupted later t ≡ returns (no_enemy, t))
  unfolding enemy_get_ranges range_reading enemy_get seen_in
  enemy_get-failed_start s t e garbage later i n r f h = (
    first_call s t e garbage i n f h,
    ap seen_in (
          (read_range_multiple-start_measuring i2c polls s t e interrupted _ (ap is_measuring n)
            h).0)
        ∙ ap (λ rs. returns (enemy_get (range_reading (cached rs)), t)) r,
  )
