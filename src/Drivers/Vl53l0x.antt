-- ===== src/Drivers/Vl53l0x.antt =====
-- src/drivers/vl53l0x.c: the range sensors. This file holds the state that the driver keeps, the
-- execution of its functions and the register accesses they share. The functions themselves are in
-- the child modules.
pub mod Spads
pub mod Setup
pub mod Boot
pub mod Ranging
pub mod Frame
pub mod AtBoot
pub mod Safe
pub mod Configured
pub mod Prepared
pub mod Started
pub mod OnBus
pub mod Reads
pub mod Sanity
pub mod Restart
pub mod Polling
pub mod Multiple
pub mod Transfers
use nsumo_video.Prelude.{
  get_or, ℕ, zero, suc, ◌+◌, Bool, true, false, Option, none, some, List, [], ◌∷◌,
}
use nsumo_video.Drivers.I2c
use nsumo_video.Drivers.I2c
use nsumo_video.Drivers.I2c.{Result}
use nsumo_video.Drivers.Io.{Registers}
use nsumo_video.Drivers.Io.Interrupts.{Interrupts}

-- `vl53l0x_idx_e`
pub data Idx : Type 0 where
  front left right front_left front_right : Idx

-- The value of the enumerator.
abbrev pub idx_value : Idx → ℕ
idx_value Idx.front = 0
idx_value Idx.left = 1
idx_value Idx.right = 2
idx_value Idx.front_left = 3
idx_value Idx.front_right = 4

-- `vl53l0x_result_e`, and the value 5, which has no enumerator but is returned in one place.
pub data RangeResult : Type 0 where
  ok error_i2c error_boot error_spad error_measure_ongoing value_5 : RangeResult

-- `status_multiple_e`
pub data StatusMultiple : Type 0 where
  not_started measuring done : StatusMultiple

-- The functions that the program registers for pin interrupts.
pub data Isr : Type 0 where
  pulse front_measurement_done : Isr

-- `VL53L0X_OUT_OF_RANGE`
abbrev pub out_of_range : ℕ
out_of_range = 8190

-- The functions of src/drivers/i2c.c as this driver uses them, over a state `S`: a transfer of bytes
-- to the register at an address, a transfer from it into a buffer that has some content before, and
-- `i2c_set_slave_address`. An assertion in them gives `none`.
pub record I2cDriver (S : Type 0) : Type 0 where
  pub write : ℕ → List ℕ → S → Option (Result × S)
  pub read : ℕ → List ℕ → S → Option (Result × List ℕ × S)
  pub i2c_set_slave_address : ℕ → S → S

-- The static variables of the file, what its functions act on, and the variable that the caller of
-- `vl53l0x_read_range_single` points at.
pub record Sensors (S : Type 0) : Type 0 where
  pub link : S
  pub io : Registers
  pub interrupts : Interrupts Isr
  pub i2c_initialized : Bool
  pub i2c_registers : I2c.Registers
  pub stop_variable : ℕ
  pub status_multiple : StatusMultiple
  pub initialized : Bool
  pub latest_ranges : List ℕ
  pub caller_range : ℕ

-- How a call ends: it returns, an assertion fails, or it never ends.
pub data Run (A : Type 0) : Type 0 where
  returns : A → Run A
  asserts hangs : Run A

-- A function of the driver that returns a `vl53l0x_result_e`.
abbrev pub Proc : Type 0 → Type 0
Proc S = Sensors S → Run (RangeResult × Sensors S)

-- What follows a call: the rest of the function, where the result is VL53L0X_RESULT_OK.
abbrev pub then_run :
    {S : Type 0} → Run (RangeResult × Sensors S) → Proc S → Run (RangeResult × Sensors S)
then_run (returns (RangeResult.ok, s)) q = q s
then_run (returns (e, s)) q = returns (e, s)
then_run asserts q = asserts
then_run hangs q = hangs

-- `result = f(); if (result) { return result; }`, and the rest of the function.
infixr 4 ◌⨟◌
unfoldable pub ◌⨟◌ : {S : Type 0} → Proc S → Proc S → Proc S
(p ⨟ q) s = then_run (p s) q

abbrev pub return : {S : Type 0} → RangeResult → Proc S
return e s = returns (e, s)

-- `ASSERT(b)` before the rest of the function.
abbrev pub assert_then : {S : Type 0} → Bool → Proc S → Proc S
assert_then true p s = p s
assert_then false p s = asserts

-- `if (i2c_...(...)) { return VL53L0X_RESULT_ERROR_I2C; }`
abbrev pub transferred : Result → RangeResult
transferred Result.ok = RangeResult.ok
transferred _ = RangeResult.error_i2c

module _ {S : Type 0} (i2c : I2cDriver S) where
  abbrev pub write_end : Sensors S → Option (Result × S) → Run (RangeResult × Sensors S)
  write_end s none = asserts
  write_end s (some (e, l)) = returns (transferred e, record s { link = l })

  -- `if (i2c_write(...)) { return VL53L0X_RESULT_ERROR_I2C; }`
  unfoldable pub write_bytes : ℕ → List ℕ → Proc S
  write_bytes addr bytes s = write_end s (i2c.write addr bytes s.link)

  -- `if (i2c_write_addr8_data8(addr, data)) { return VL53L0X_RESULT_ERROR_I2C; }`
  unfoldable pub write8 : ℕ → ℕ → Proc S
  unfolding write_bytes
  write8 addr value = write_bytes addr (value ∷ [])

  abbrev pub read_end :
      (List ℕ → Proc S) → Sensors S → Option (Result × List ℕ × S) → Run (RangeResult × Sensors S)
  read_end k s none = asserts
  read_end k s (some (e, b, l)) = then_run (returns (transferred e, record s { link = l })) (k b)

  -- `if (i2c_read(...)) { return VL53L0X_RESULT_ERROR_I2C; }`, where the rest of the function uses the
  -- bytes that the buffer holds then.
  unfoldable pub read_bytes : ℕ → List ℕ → (List ℕ → Proc S) → Proc S
  read_bytes addr buffer k s = read_end k s (i2c.read addr buffer s.link)

  -- `if (i2c_read_addr8_data8(addr, &value)) { return VL53L0X_RESULT_ERROR_I2C; }`
  unfoldable pub read8 : ℕ → ℕ → (ℕ → Proc S) → Proc S
  unfolding read_bytes
  read8 addr value k = read_bytes addr (value ∷ []) (λ b. k (get_or b 0 value))

  unfoldable pub i2c_slave : ℕ → Proc S
  i2c_slave addr s =
      returns (RangeResult.ok, record s { link = i2c.i2c_set_slave_address addr s.link })

  unfoldable pub vl53l0x_write_8regs : List (ℕ × ℕ) → Proc S
  unfolding write8
  vl53l0x_write_8regs [] = return RangeResult.ok
  vl53l0x_write_8regs ((addr, value) ∷ regs) = write8 addr value ⨟ vl53l0x_write_8regs regs

  abbrev pub poll_step : Bool → Proc S → Proc S
  poll_step true again s = returns (RangeResult.ok, s)
  poll_step false again s = again s

  -- The polling loops: the register at `addr` is read until a transfer fails or `ready` holds of the
  -- value. A loop that has not ended after as many reads as `fuel` counts as one that never ends.
  unfoldable pub poll : (fuel : ℕ) → ℕ → (ℕ → Bool) → Proc S
  unfolding read8
  poll zero addr ready s = hangs
  poll (suc fuel) addr ready s =
      read8 addr 0 (λ value. poll_step (ready value) (poll fuel addr ready)) s

-- The registers, by the names of the source.
abbrev pub reg_identification_model_id : ℕ
reg_identification_model_id = 0xC0

abbrev pub reg_system_sequence_config : ℕ
reg_system_sequence_config = 0x01

abbrev pub reg_system_interrupt_clear : ℕ
reg_system_interrupt_clear = 0x0B

abbrev pub reg_result_interrupt_status : ℕ
reg_result_interrupt_status = 0x13

abbrev pub reg_sysrange_start : ℕ
reg_sysrange_start = 0x00

abbrev pub reg_global_config_spad_enables_ref_0 : ℕ
reg_global_config_spad_enables_ref_0 = 0xB0

abbrev pub reg_slave_device_address : ℕ
reg_slave_device_address = 0x8A

-- DSS, pre-range and final range: the steps that the driver enables.
abbrev pub range_sequence_steps : ℕ
range_sequence_steps = 0x28 + 0x40 + 0x80
