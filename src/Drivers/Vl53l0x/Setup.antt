-- ===== src/Drivers/Vl53l0x/Setup.antt =====
-- The initialisation of one sensor in src/drivers/vl53l0x.c, at the slave address that is set: the
-- register writes of the data and static initialisation and the reference calibration.
use nsumo_video.Prelude.{
  ◌==◌, if◌then◌else◌, get_or, ℕ, bit_and, Bool, not, Option, none, some, List, [], ◌∷◌,
}
use nsumo_video.Drivers.Bits.{set_bit, clear_bit}
use nsumo_video.Drivers.Vl53l0x.{
  RangeResult, I2cDriver, Sensors, Run, returns, asserts, Proc, ◌⨟◌, return, transferred, write8,
  read8, vl53l0x_write_8regs, poll, reg_identification_model_id, reg_system_sequence_config,
  reg_system_interrupt_clear, reg_result_interrupt_status, reg_sysrange_start,
  reg_slave_device_address, range_sequence_steps,
}
use nsumo_video.Drivers.I2c.{Result}
use nsumo_video.Drivers.Vl53l0x.Spads.{vl53l0x_set_spads_from_nvm}

-- `default_tuning_regs`
unfoldable pub default_tuning_regs : List (ℕ × ℕ)
default_tuning_regs =
    (0xFF, 0x01)
    ∷ (0x00, 0x00)
    ∷ (0xFF, 0x00)
    ∷ (0x09, 0x00)
    ∷ (0x10, 0x00)
    ∷ (0x11, 0x00)
    ∷ (0x24, 0x01)
    ∷ (0x25, 0xFF)
    ∷ (0x75, 0x00)
    ∷ (0xFF, 0x01)
    ∷ (0x4E, 0x2C)
    ∷ (0x48, 0x00)
    ∷ (0x30, 0x20)
    ∷ (0xFF, 0x00)
    ∷ (0x30, 0x09)
    ∷ (0x54, 0x00)
    ∷ (0x31, 0x04)
    ∷ (0x32, 0x03)
    ∷ (0x40, 0x83)
    ∷ (0x46, 0x25)
    ∷ (0x60, 0x00)
    ∷ (0x27, 0x00)
    ∷ (0x50, 0x06)
    ∷ (0x51, 0x00)
    ∷ (0x52, 0x96)
    ∷ (0x56, 0x08)
    ∷ (0x57, 0x30)
    ∷ (0x61, 0x00)
    ∷ (0x62, 0x00)
    ∷ (0x64, 0x00)
    ∷ (0x65, 0x00)
    ∷ (0x66, 0xA0)
    ∷ (0xFF, 0x01)
    ∷ (0x22, 0x32)
    ∷ (0x47, 0x14)
    ∷ (0x49, 0xFF)
    ∷ (0x4A, 0x00)
    ∷ (0xFF, 0x00)
    ∷ (0x7A, 0x0A)
    ∷ (0x7B, 0x00)
    ∷ (0x78, 0x21)
    ∷ (0xFF, 0x01)
    ∷ (0x23, 0x34)
    ∷ (0x42, 0x00)
    ∷ (0x44, 0xFF)
    ∷ (0x45, 0x26)
    ∷ (0x46, 0x05)
    ∷ (0x40, 0x40)
    ∷ (0x0E, 0x06)
    ∷ (0x20, 0x1A)
    ∷ (0x43, 0x40)
    ∷ (0xFF, 0x00)
    ∷ (0x34, 0x03)
    ∷ (0x35, 0x44)
    ∷ (0xFF, 0x01)
    ∷ (0x31, 0x04)
    ∷ (0x4B, 0x09)
    ∷ (0x4C, 0x05)
    ∷ (0x4D, 0x04)
    ∷ (0xFF, 0x00)
    ∷ (0x44, 0x00)
    ∷ (0x45, 0x20)
    ∷ (0x47, 0x08)
    ∷ (0x48, 0x28)
    ∷ (0x67, 0x00)
    ∷ (0x70, 0x04)
    ∷ (0x71, 0x01)
    ∷ (0x72, 0xFE)
    ∷ (0x76, 0x00)
    ∷ (0x77, 0x00)
    ∷ (0xFF, 0x01)
    ∷ (0x0D, 0x01)
    ∷ (0xFF, 0x00)
    ∷ (0x80, 0x01)
    ∷ (0x01, 0xF8)
    ∷ (0xFF, 0x01)
    ∷ (0x8E, 0x01)
    ∷ (0x00, 0x01)
    ∷ (0xFF, 0x00)
    ∷ (0x80, 0x00)
    ∷ []

-- `vl53l0x_calibration_type_e`
pub data CalibrationType : Type 0 where
  vhv phase : CalibrationType

abbrev sequence_config : CalibrationType → ℕ
sequence_config CalibrationType.vhv = 0x01
sequence_config CalibrationType.phase = 0x02

abbrev sysrange_start : CalibrationType → ℕ
sysrange_start CalibrationType.vhv = 0x41
sysrange_start CalibrationType.phase = 0x01

-- `(interrupt_status & 0x07) != 0`
unfoldable pub measurement_ready : ℕ → Bool
measurement_ready status = not (bit_and status 0x07 == 0)

module _ {S : Type 0} (i2c : I2cDriver S) where
  unfoldable pub device_is_booted : Proc S
  unfolding read8
  device_is_booted =
      read8 i2c reg_identification_model_id 0
        (λ id. return (if id == 0xEE then RangeResult.ok else RangeResult.error_boot))

  abbrev pub stop_variable_end :
      Sensors S → Option (Result × List ℕ × S) → Run (RangeResult × Sensors S)
  stop_variable_end s none = asserts
  stop_variable_end s (some (e, b, l)) =
      returns (transferred e, record s { link = l; stop_variable = get_or b 0 s.stop_variable })

  -- `i2c_read_addr8_data8(0x91, &stop_variable)`
  unfoldable pub read_stop_variable : Proc S
  read_stop_variable s = stop_variable_end s (i2c.read 0x91 (s.stop_variable ∷ []) s.link)

  -- `vl53l0x_data_init` behind its first read.
  unfoldable pub data_init_rest : ℕ → Proc S
  unfolding write8 vl53l0x_write_8regs read_stop_variable
  data_init_rest vhv_config_scl_sda =
      write8 i2c 0x89 (set_bit vhv_config_scl_sda 0)
      ⨟ write8 i2c 0x88 0x00
      ⨟ vl53l0x_write_8regs i2c ((0x80, 0x01) ∷ (0xFF, 0x01) ∷ (0x00, 0x00) ∷ [])
      ⨟ read_stop_variable
      ⨟ vl53l0x_write_8regs i2c ((0x00, 0x01) ∷ (0xFF, 0x00) ∷ (0x80, 0x00) ∷ [])

  unfoldable pub vl53l0x_data_init : Proc S
  unfolding read8 data_init_rest
  vl53l0x_data_init = read8 i2c 0x89 0 data_init_rest

  unfoldable pub vl53l0x_load_default_tuning_settings : Proc S
  unfolding vl53l0x_write_8regs
  vl53l0x_load_default_tuning_settings = vl53l0x_write_8regs i2c default_tuning_regs

  -- `vl53l0x_configure_interrupt` behind its read.
  unfoldable pub configure_interrupt_rest : ℕ → Proc S
  unfolding write8
  configure_interrupt_rest gpio_hv_mux_active_high =
      write8 i2c 0x84 (clear_bit gpio_hv_mux_active_high 4)
      ⨟ write8 i2c reg_system_interrupt_clear 0x01

  unfoldable pub vl53l0x_configure_interrupt : Proc S
  unfolding read8 write8 configure_interrupt_rest
  vl53l0x_configure_interrupt = write8 i2c 0x0A 0x04 ⨟ read8 i2c 0x84 0 configure_interrupt_rest

  unfoldable pub vl53l0x_set_sequence_steps_enabled : ℕ → Proc S
  unfolding write8
  vl53l0x_set_sequence_steps_enabled steps = write8 i2c reg_system_sequence_config steps

  unfoldable pub vl53l0x_configure_address : ℕ → Proc S
  unfolding write8
  vl53l0x_configure_address addr = write8 i2c reg_slave_device_address (bit_and addr 0x7F)

module _ {S : Type 0} (i2c : I2cDriver S) (polls : ℕ) where
  unfoldable pub vl53l0x_static_init : Proc S
  unfolding vl53l0x_set_spads_from_nvm vl53l0x_load_default_tuning_settings
      vl53l0x_configure_interrupt vl53l0x_set_sequence_steps_enabled
  vl53l0x_static_init =
      vl53l0x_set_spads_from_nvm i2c polls
      ⨟ vl53l0x_load_default_tuning_settings i2c
      ⨟ vl53l0x_configure_interrupt i2c
      ⨟ vl53l0x_set_sequence_steps_enabled i2c range_sequence_steps

  -- The loop of `vl53l0x_perform_single_ref_calibration`.
  abbrev pub wait_calibrated : Proc S
  wait_calibrated = poll i2c polls reg_result_interrupt_status measurement_ready

  unfoldable pub vl53l0x_perform_single_ref_calibration : CalibrationType → Proc S
  unfolding write8
  vl53l0x_perform_single_ref_calibration calib_type =
      write8 i2c reg_system_sequence_config (sequence_config calib_type)
      ⨟ write8 i2c reg_sysrange_start (sysrange_start calib_type)
      ⨟ wait_calibrated
      ⨟ write8 i2c reg_system_interrupt_clear 0x01
      ⨟ write8 i2c reg_sysrange_start 0x00

  unfoldable pub vl53l0x_perform_ref_calibration : Proc S
  unfolding vl53l0x_perform_single_ref_calibration vl53l0x_set_sequence_steps_enabled
  vl53l0x_perform_ref_calibration =
      vl53l0x_perform_single_ref_calibration CalibrationType.vhv
      ⨟ vl53l0x_perform_single_ref_calibration CalibrationType.phase
      ⨟ vl53l0x_set_sequence_steps_enabled i2c range_sequence_steps
