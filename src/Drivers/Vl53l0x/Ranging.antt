-- ===== src/Drivers/Vl53l0x/Ranging.antt =====
-- The measurements of src/drivers/vl53l0x.c. A caller's variable that a function writes through a
-- pointer is an argument, and its new value a part of the result.
use nsumo_video.Prelude.{
  ◌==◌, if◌then◌else◌, get_or, set, ℕ, ◌/◌, ◌%◌, bit_and, Bool, true, false, ◌||◌, Option, none,
  some, List, [], ◌∷◌,
}
use nsumo_video.Drivers.I2c.{Result}
use nsumo_video.Drivers.Vl53l0x.{
  Idx, idx_value, RangeResult, StatusMultiple, out_of_range, I2cDriver, Sensors, Run, returns,
  asserts, Proc, ◌⨟◌, return, assert_then, transferred, write8, i2c_slave, vl53l0x_write_8regs,
  poll, reg_system_interrupt_clear, reg_result_interrupt_status, reg_sysrange_start,
}
use nsumo_video.Drivers.Vl53l0x.Spads.{number_of}
use nsumo_video.Drivers.Vl53l0x.Setup.{measurement_ready}
use nsumo_video.Drivers.Vl53l0x.Boot.{cfg_addr}

-- 8190 or 8191 may be returned when an obstacle is out of range.
unfoldable pub clip_range : ℕ → ℕ
clip_range range = if range == 8190 || range == 8191 then out_of_range else range

-- `front_measurement_done_isr`
unfoldable pub front_measurement_done_isr : {S : Type 0} → Sensors S → Sensors S
front_measurement_done_isr s = record s { status_multiple = StatusMultiple.done }

-- What a pointer to a range points at: an entry of `latest_ranges`, or the caller's variable.
pub data RangePointer : Type 0 where
  latest : Idx → RangePointer
  caller : RangePointer

unfoldable pub range_at : {S : Type 0} → RangePointer → Sensors S → ℕ
range_at (latest idx) s = get_or s.latest_ranges (idx_value idx) 0
range_at caller s = s.caller_range

unfoldable pub store_range : {S : Type 0} → RangePointer → ℕ → Sensors S → Sensors S
store_range (latest idx) range s = record s {
  latest_ranges = set s.latest_ranges (idx_value idx) range;
}
store_range caller range s = record s { caller_range = range }

abbrev pub is_measuring : StatusMultiple → Bool
is_measuring StatusMultiple.measuring = true
is_measuring _ = false

module _ {S : Type 0} where
  -- `if (*range == 8190 || *range == 8191) { *range = VL53L0X_OUT_OF_RANGE; }`
  unfoldable pub clip_range_at : RangePointer → Proc S
  unfolding clip_range range_at store_range
  clip_range_at range s =
      returns (RangeResult.ok, store_range range (clip_range (range_at range s)) s)

  unfoldable pub set_status : StatusMultiple → Proc S
  set_status status s = returns (RangeResult.ok, record s { status_multiple = status })

module _ {S : Type 0} (i2c : I2cDriver S) where
  -- `i2c_write_addr8_data8(0x91, stop_variable)`
  unfoldable pub write_stop_variable : Proc S
  unfolding write8
  write_stop_variable s = write8 i2c 0x91 s.stop_variable s

  unfoldable pub vl53l0x_clear_sysrange_interrupt : Proc S
  unfolding write8
  vl53l0x_clear_sysrange_interrupt = write8 i2c reg_system_interrupt_clear 0x01

  unfoldable pub done_end : Sensors S → Option (Result × List ℕ × S) → Option (Bool × Sensors S)
  unfolding measurement_ready
  done_end s none = none
  done_end s (some (Result.ok, b, l)) =
      some (measurement_ready (get_or b 0 0), record s { link = l })
  done_end s (some (e, b, l)) = some (false, record s { link = l })

  -- Whether the sensor that answers has a measurement.
  unfoldable pub read_is_done : Sensors S → Option (Bool × Sensors S)
  unfolding done_end
  read_is_done s = done_end s (i2c.read reg_result_interrupt_status (0 ∷ []) s.link)

  unfoldable pub vl53l0x_is_sysrange_done : Idx → Sensors S → Option (Bool × Sensors S)
  unfolding read_is_done
  vl53l0x_is_sysrange_done Idx.left s = some (true, s)
  vl53l0x_is_sysrange_done Idx.right s = some (true, s)
  vl53l0x_is_sysrange_done idx s =
      read_is_done (record s { link = i2c.i2c_set_slave_address (cfg_addr idx) s.link })

  unfoldable pub range_end :
      RangePointer → Sensors S → Option (Result × List ℕ × S) → Run (RangeResult × Sensors S)
  unfolding store_range
  range_end range s none = asserts
  range_end range s (some (e, b, l)) =
      returns (transferred e, store_range range (number_of b) (record s { link = l }))

  -- `i2c_read_addr8_data16(REG_RESULT_RANGE_STATUS + 10, range)`. A failed transfer also writes.
  unfoldable pub read_range_at : RangePointer → Proc S
  unfolding range_at range_end
  read_range_at range s =
      range_end range s
        (i2c.read 0x1E (range_at range s % 256 ∷ range_at range s / 256 ∷ []) s.link)

module _ {S : Type 0} (i2c : I2cDriver S) (polls : ℕ) where
  -- The loop of `vl53l0x_start_sysrange`.
  abbrev pub wait_started : Proc S
  wait_started = poll i2c polls reg_sysrange_start (λ value. bit_and value 0x01 == 0)

  unfoldable pub vl53l0x_start_sysrange : Idx → Proc S
  unfolding i2c_slave vl53l0x_write_8regs write_stop_variable write8
  vl53l0x_start_sysrange idx =
      i2c_slave i2c (cfg_addr idx)
      ⨟ vl53l0x_write_8regs i2c ((0x80, 0x01) ∷ (0xFF, 0x01) ∷ (0x00, 0x00) ∷ [])
      ⨟ write_stop_variable i2c
      ⨟ vl53l0x_write_8regs i2c ((0x00, 0x01) ∷ (0xFF, 0x00) ∷ (0x80, 0x00) ∷ [])
      ⨟ write8 i2c reg_sysrange_start 0x01
      ⨟ wait_started

  unfoldable pub vl53l0x_pollwait_sysrange : Proc S
  unfolding poll measurement_ready
  vl53l0x_pollwait_sysrange = poll i2c polls reg_result_interrupt_status measurement_ready

  unfoldable pub vl53l0x_read_range : Idx → RangePointer → Proc S
  unfolding i2c_slave vl53l0x_pollwait_sysrange read_range_at write8 clip_range_at
      vl53l0x_clear_sysrange_interrupt
  vl53l0x_read_range idx range =
      i2c_slave i2c (cfg_addr idx)
      ⨟ vl53l0x_pollwait_sysrange
      ⨟ read_range_at i2c range
      ⨟ write8 i2c reg_system_interrupt_clear 0x01
      ⨟ clip_range_at range
      ⨟ vl53l0x_clear_sysrange_interrupt i2c

  unfoldable pub vl53l0x_read_range_single : Idx → Proc S
  unfolding vl53l0x_start_sysrange vl53l0x_read_range
  vl53l0x_read_range_single idx s =
      assert_then s.initialized (vl53l0x_start_sysrange idx ⨟ vl53l0x_read_range idx caller) s

  -- The part of `vl53l0x_start_measuring_multiple` behind its test.
  unfoldable pub start_sensors : Proc S
  unfolding set_status vl53l0x_start_sysrange
  start_sensors =
      set_status StatusMultiple.measuring
      ⨟ vl53l0x_start_sysrange Idx.front
      ⨟ vl53l0x_start_sysrange Idx.front_left
      ⨟ vl53l0x_start_sysrange Idx.front_right

  unfoldable pub vl53l0x_start_measuring_multiple : Proc S
  unfolding start_sensors
  vl53l0x_start_measuring_multiple s =
      assert_then s.initialized
        (if is_measuring s.status_multiple
          then return RangeResult.error_measure_ongoing
          else start_sensors)
        s
