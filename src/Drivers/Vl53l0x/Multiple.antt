-- ===== src/Drivers/Vl53l0x/Multiple.antt =====
-- `vl53l0x_read_range_multiple` of src/drivers/vl53l0x.c. The interrupt of the front sensor is taken
-- between two calls, or while the function blocks.
use nsumo_video.Prelude.{if◌then◌else◌, ℕ, Bool, true, false, Option, none, some, List}
use nsumo_video.Drivers.Vl53l0x.{
  Idx, RangeResult, StatusMultiple, I2cDriver, Sensors, Run, returns, asserts, hangs, Proc, ◌⨟◌,
}
use nsumo_video.Drivers.Vl53l0x.Ranging.{
  front_measurement_done_isr, latest, vl53l0x_is_sysrange_done, vl53l0x_read_range,
  vl53l0x_start_measuring_multiple,
}

-- The result, and the caller's `ranges` and `fresh_values` behind the call.
pub record Reading : Type 0 where
  pub result : RangeResult
  pub ranges : List ℕ
  pub fresh_values : Bool

-- How the call ends for the caller's variables: an early return does not write them.
unfoldable pub finish :
    {S : Type 0} → Reading → Bool → Run (RangeResult × Sensors S) → Run (Reading × Sensors S)
finish before fresh (returns (RangeResult.ok, s)) =
    returns (record { result = RangeResult.ok; ranges = s.latest_ranges; fresh_values = fresh }, s)
finish before fresh (returns (e, s)) = returns (record before { result = e }, s)
finish before fresh asserts = asserts
finish before fresh hangs = hangs

-- `a && b` for tests that act on the state.
abbrev pub and_done :
    {S : Type 0}
    → Option (Bool × Sensors S)
    → (Sensors S → Option (Bool × Sensors S))
    → Option (Bool × Sensors S)
and_done none k = none
and_done (some (true, s)) k = k s
and_done (some (false, s)) k = some (false, s)

abbrev pub is_done : StatusMultiple → Bool
is_done StatusMultiple.done = true
is_done _ = false

abbrev pub is_not_started : StatusMultiple → Bool
is_not_started StatusMultiple.not_started = true
is_not_started _ = false

-- `while (status_multiple != STATUS_MULTIPLE_DONE) { }`, where `interrupted` is whether the interrupt of
-- the front sensor comes.
unfoldable pub block_until_done : {S : Type 0} → Bool → Proc S
unfolding front_measurement_done_isr
block_until_done interrupted s =
    if is_done s.status_multiple
    then returns (RangeResult.ok, s)
    else if interrupted
    then returns (RangeResult.ok, front_measurement_done_isr s)
    else hangs

abbrev pub front_done_end : {S : Type 0} → Option (Bool × Sensors S) → Run (RangeResult × Sensors S)
front_done_end none = asserts
front_done_end (some (true, s)) = returns (RangeResult.ok, s)
front_done_end (some (false, s)) = asserts

module _ {S : Type 0} (i2c : I2cDriver S) (polls : ℕ) (interrupted : Bool) where
  -- The condition of the second `if`.
  unfoldable pub measurements_done : Sensors S → Option (Bool × Sensors S)
  measurements_done s = and_done (some (is_done s.status_multiple, s)) (λ a.
      and_done (vl53l0x_is_sysrange_done i2c Idx.left a) (λ b.
        and_done (vl53l0x_is_sysrange_done i2c Idx.right b) (λ c.
          and_done (vl53l0x_is_sysrange_done i2c Idx.front_left c)
            (vl53l0x_is_sysrange_done i2c Idx.front_right))))

  -- `if (!vl53l0x_is_sysrange_done(VL53L0X_IDX_FRONT)) { ASSERT(false); }`
  unfoldable pub assert_front_done : Proc S
  assert_front_done s = front_done_end (vl53l0x_is_sysrange_done i2c Idx.front s)

  -- What is done behind the check.
  abbrev pub read_and_start : Proc S
  read_and_start =
      vl53l0x_read_range i2c polls Idx.front (latest Idx.front)
      ⨟ vl53l0x_read_range i2c polls Idx.front_left (latest Idx.front_left)
      ⨟ vl53l0x_read_range i2c polls Idx.front_right (latest Idx.front_right)
      ⨟ vl53l0x_start_measuring_multiple i2c polls

  -- What is done where all measurements are ready.
  unfoldable pub read_and_restart : Proc S
  unfolding assert_front_done
  read_and_restart = assert_front_done ⨟ read_and_start

  -- The branches of the second `if`.
  unfoldable pub read_measured : Reading → Option (Bool × Sensors S) → Run (Reading × Sensors S)
  unfolding finish read_and_restart
  read_measured before none = asserts
  read_measured before (some (true, t)) = finish before true (read_and_restart t)
  read_measured before (some (false, t)) = finish before false (returns (RangeResult.ok, t))

  -- The function from its second `if` on.
  unfoldable pub read_if_done : Reading → Sensors S → Run (Reading × Sensors S)
  unfolding measurements_done read_measured
  read_if_done before s = read_measured before (measurements_done s)

  -- The first `if`, with the wait.
  unfoldable pub start_if_needed : Proc S
  unfolding block_until_done
  start_if_needed s =
      if is_not_started s.status_multiple
      then (vl53l0x_start_measuring_multiple i2c polls ⨟ block_until_done interrupted) s
      else returns (RangeResult.ok, s)

  unfoldable pub read_started : Reading → Run (RangeResult × Sensors S) → Run (Reading × Sensors S)
  unfolding read_if_done
  read_started before (returns (RangeResult.ok, s)) = read_if_done before s
  read_started before (returns (e, s)) = returns (record before { result = e }, s)
  read_started before asserts = asserts
  read_started before hangs = hangs

  -- `before` is what the caller's variables hold.
  unfoldable pub vl53l0x_read_range_multiple : Reading → Sensors S → Run (Reading × Sensors S)
  unfolding start_if_needed read_started
  vl53l0x_read_range_multiple before s =
      if s.initialized then read_started before (start_if_needed s) else asserts
