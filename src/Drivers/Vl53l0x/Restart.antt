-- ===== src/Drivers/Vl53l0x/Restart.antt =====
-- The start of the measurements in src/drivers/vl53l0x.c, and the calls of
-- `vl53l0x_read_range_multiple` behind it.
use nsumo_video.Prelude.{
  Bool-cases, if-is_true, if-is_false, ℕ, ◌≡◌, refl, sym, ap, ◌∙◌, inl, inr, Bool, true, false,
  Option, some, List,
}
use nsumo_video.Drivers.Vl53l0x.{
  Idx, RangeResult, StatusMultiple, I2cDriver, Sensors, returns, asserts, Proc, ◌⨟◌, return,
  assert_then,
}
use nsumo_video.Drivers.Vl53l0x.Ranging.{
  is_measuring, set_status, vl53l0x_start_sysrange, start_sensors, vl53l0x_start_measuring_multiple,
}
use nsumo_video.Drivers.Vl53l0x.Multiple.{
  Reading, finish, and_done, is_done, is_not_started, measurements_done, read_measured,
  read_if_done, start_if_needed, read_started, vl53l0x_read_range_multiple,
}
use nsumo_video.Drivers.Vl53l0x.Frame.{Keeps, Keeps-then, Keeps-vl53l0x_start_sysrange}

-- The static variables that the start of a measurement leaves.
abbrev kept_by_start : {S : Type 0} → Sensors S → StatusMultiple × Bool × List ℕ
kept_by_start s = (s.status_multiple, s.initialized, s.latest_ranges)

-- What a call reports while a measurement is under way.
abbrev pub cached : List ℕ → Reading
cached ranges = record { result = RangeResult.ok; ranges = ranges; fresh_values = false }

and_done-false :
    {S : Type 0} (b : Bool) (s : Sensors S) (k : Sensors S → Option (Bool × Sensors S))
    → b ≡ false
    → and_done (some (b, s)) k ≡ some (false, s)
and_done-false true s k h = cc
and_done-false false s k h = refl

assert_then-true :
    {S : Type 0} (b : Bool) (p : Proc S) (s : Sensors S) → b ≡ true → assert_then b p s ≡ p s
assert_then-true true p s h = refl
assert_then-true false p s h = cc

module _ {S : Type 0} (i2c : I2cDriver S) (polls : ℕ) where
  start_sysranges : Proc S
  start_sysranges =
      vl53l0x_start_sysrange i2c polls Idx.front
      ⨟ vl53l0x_start_sysrange i2c polls Idx.front_left
      ⨟ vl53l0x_start_sysrange i2c polls Idx.front_right

  start_sysranges-Keeps : Keeps kept_by_start start_sysranges
  unfolding start_sysranges
  start_sysranges-Keeps =
      search (Keeps-then, Keeps-vl53l0x_start_sysrange i2c kept_by_start (λ s l. refl)) depth 6

  start_measuring-start_sysranges :
      (s : Sensors S)
      → s.initialized ≡ true
      → is_measuring s.status_multiple ≡ false
      → vl53l0x_start_measuring_multiple i2c polls s
        ≡ start_sysranges (record s { status_multiple = StatusMultiple.measuring })
  unfolding vl53l0x_start_measuring_multiple start_sensors set_status start_sysranges ◌⨟◌
  start_measuring-start_sysranges s i m = rw (i, m) refl

  start_measuring-refused :
      (s : Sensors S)
      → s.initialized ≡ true
      → is_measuring s.status_multiple ≡ true
      → vl53l0x_start_measuring_multiple i2c polls s
        ≡ returns (RangeResult.error_measure_ongoing, s)
  unfolding vl53l0x_start_measuring_multiple
  start_measuring-refused s i m =
      assert_then-true s.initialized _ s i
      ∙ ap (λ (p : Proc S). p s) (if-is_true _ (return RangeResult.error_measure_ongoing) _ m)

  start_measuring-asserts :
      (s : Sensors S)
      → s.initialized ≡ false
      → vl53l0x_start_measuring_multiple i2c polls s ≡ asserts
  unfolding vl53l0x_start_measuring_multiple
  start_measuring-asserts s i = rw i refl

  -- Behind any start that was not refused, the measurement counts as under way.
  pub start_measuring-status :
      (s t : Sensors S) (e : RangeResult)
      → is_measuring s.status_multiple ≡ false
      → vl53l0x_start_measuring_multiple i2c polls s ≡ returns (e, t)
      → kept_by_start t ≡ (StatusMultiple.measuring, true, s.latest_ranges)
  start_measuring-status s t e m h = elim (Bool-cases s.initialized) [
    | inl i ↦ cc (
      i,
      start_sysranges-Keeps.kept (record s { status_multiple = StatusMultiple.measuring }) t e
          (sym (start_measuring-start_sysranges s i m) ∙ h),
    )
    | inr i ↦ cc (start_measuring-asserts s i)
  ]

  measurements_done-measuring :
      (interrupted : Bool) (s : Sensors S)
      → is_done s.status_multiple ≡ false
      → measurements_done i2c polls interrupted s ≡ some (false, s)
  unfolding measurements_done
  measurements_done-measuring interrupted s d = and_done-false _ s _ d

  -- While a measurement is under way, the call returns the cached ranges and changes nothing.
  read_range_multiple-measuring :
      (interrupted : Bool) (s : Sensors S) (before : Reading)
      → s.initialized ≡ true
      → s.status_multiple ≡ StatusMultiple.measuring
      → vl53l0x_read_range_multiple i2c polls interrupted before s
        ≡ returns (cached s.latest_ranges, s)
  unfolding vl53l0x_read_range_multiple read_started read_if_done start_if_needed finish
      read_measured
  read_range_multiple-measuring interrupted s before i m =
      if-is_true _ _ asserts i
      ∙ (ap (read_started i2c polls interrupted before) (if-is_false _ _ _ (ap is_not_started m))
          ∙ ap (read_measured i2c polls interrupted before)
              (measurements_done-measuring interrupted s (ap is_done m)))

  -- A start of the measurements that was not refused, and that returns whatever result, also that of
  -- a failed transfer: until the next interrupt of the front sensor, every call of
  -- `vl53l0x_read_range_multiple` returns VL53L0X_RESULT_OK with the ranges from before the start,
  -- not fresh, and changes nothing; and a further start is refused and changes nothing.
  pub read_range_multiple-start_measuring :
      (s t : Sensors S) (e : RangeResult) (interrupted : Bool) (before : Reading)
      → is_measuring s.status_multiple ≡ false
      → vl53l0x_start_measuring_multiple i2c polls s ≡ returns (e, t)
      → (vl53l0x_read_range_multiple i2c polls interrupted before t
          ≡ returns (cached s.latest_ranges, t))
        × (vl53l0x_start_measuring_multiple i2c polls t
            ≡ returns (RangeResult.error_measure_ongoing, t))
  read_range_multiple-start_measuring s t e interrupted before m h =
      let k = start_measuring-status s t e m h in
      let i : t.initialized ≡ true = ap (λ x. x.1) k in
      let c : t.status_multiple ≡ StatusMultiple.measuring = ap (λ x. x.0) k in
      (
        read_range_multiple-measuring interrupted t before i c
            ∙ ap (λ r. returns (cached r, t)) (ap (λ x. x.2) k),
        start_measuring-refused t i (ap is_measuring c),
      )
