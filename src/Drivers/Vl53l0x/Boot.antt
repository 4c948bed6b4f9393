-- ===== src/Drivers/Vl53l0x/Boot.antt =====
-- The start of the range sensors in src/drivers/vl53l0x.c: the XSHUT pins, the slave addresses, the
-- configuration of every sensor, and `i2c_init` of src/drivers/i2c.c, which is called there.
use nsumo_video.Prelude.{if◌then◌else◌, ℕ, Bool, true, false, not, ◌&&◌, Option, none, some}
use nsumo_video.Drivers.Io.{
  Select, Out, Config, Registers, io_set_out, io_get_current_config, io_config_compare,
  input_config, output_config,
}
use nsumo_video.Drivers.Io.Pins.{
  io_i2c_scl, io_i2c_sda, io_range_sensor_front_int, io_xshut_front, io_xshut_front_right,
  io_xshut_right, io_xshut_front_left, io_xshut_left,
}
use nsumo_video.Drivers.I2c.{i2c_configure}
use nsumo_video.Drivers.Io.Interrupts.{
  Trigger, Interrupts, io_enable_interrupt, io_configure_interrupt,
}
use nsumo_video.Drivers.Vl53l0x.{
  Idx, RangeResult, Isr, I2cDriver, returns, asserts, Proc, ◌⨟◌, return, assert_then, i2c_slave,
}
use nsumo_video.Drivers.Vl53l0x.Setup.{
  device_is_booted, vl53l0x_data_init, vl53l0x_configure_address, vl53l0x_static_init,
  vl53l0x_perform_ref_calibration,
}

-- `VL53L0X_DEFAULT_ADDRESS` and DEFAULT_SLAVE_ADDRESS of i2c.c
abbrev pub default_address : ℕ
default_address = 0x29

-- `vl53l0x_cfgs[idx].addr`
abbrev pub cfg_addr : Idx → ℕ
cfg_addr Idx.front = 0x30
cfg_addr Idx.left = 0x31
cfg_addr Idx.right = 0x32
cfg_addr Idx.front_right = 0x33
cfg_addr Idx.front_left = 0x34

-- `vl53l0x_cfgs[idx].xshut_io`
abbrev pub xshut_io : Idx → ℕ
xshut_io Idx.front = io_xshut_front
xshut_io Idx.left = io_xshut_left
xshut_io Idx.right = io_xshut_right
xshut_io Idx.front_right = io_xshut_front_right
xshut_io Idx.front_left = io_xshut_front_left

-- `ASSERT(io_config_compare(&config, &current_config))` for the configuration of a pin.
unfoldable pub config_is : ℕ → Config → Registers → Bool
config_is io c r = io_config_compare c (io_get_current_config io r)

module _ {S : Type 0} where
  unfoldable pub vl53l0x_set_hardware_standby : Idx → Bool → Proc S
  vl53l0x_set_hardware_standby idx enable s = returns (
    RangeResult.ok,
    record s { io = io_set_out (xshut_io idx) (if enable then Out.low else Out.high) s.io },
  )

  unfoldable pub vl53l0x_assert_xshut_pins : Proc S
  unfolding config_is
  vl53l0x_assert_xshut_pins s =
      assert_then
        (config_is io_xshut_front (output_config Select.gpio) s.io
          && config_is io_xshut_front_left (output_config Select.gpio) s.io
          && config_is io_xshut_front_right (output_config Select.gpio) s.io
          && config_is io_xshut_left (output_config Select.gpio) s.io
          && config_is io_xshut_right (output_config Select.gpio) s.io)
        (return RangeResult.ok) s

  -- The rest of `vl53l0x_configure_front_sensor_interrupt`, for what `io_configure_interrupt` leaves.
  abbrev pub enable_front_interrupt : Option (Interrupts Isr) → Proc S
  enable_front_interrupt none s = asserts
  enable_front_interrupt (some i) s =
      returns
        (RangeResult.ok, record s { interrupts = io_enable_interrupt io_range_sensor_front_int i })

  unfoldable pub vl53l0x_configure_front_sensor_interrupt : Proc S
  unfolding config_is
  vl53l0x_configure_front_sensor_interrupt s =
      assert_then (config_is io_range_sensor_front_int input_config s.io)
        (enable_front_interrupt (
          io_configure_interrupt io_range_sensor_front_int Trigger.falling
            Isr.front_measurement_done s.interrupts))
        s

  -- `if (idx == VL53L0X_IDX_FRONT) { ... }`
  unfoldable pub front_interrupt_for : Idx → Proc S
  unfolding vl53l0x_configure_front_sensor_interrupt
  front_interrupt_for Idx.front = vl53l0x_configure_front_sensor_interrupt
  front_interrupt_for _ = return RangeResult.ok

  unfoldable pub mark_initialized : Proc S
  mark_initialized s = returns (RangeResult.ok, record s { initialized = true })

module _ {S : Type 0} (i2c : I2cDriver S) where
  unfoldable pub i2c_init : Proc S
  unfolding config_is i2c_configure
  i2c_init s =
      assert_then
        (not s.i2c_initialized
          && config_is io_i2c_scl (output_config Select.alt3) s.io
          && config_is io_i2c_sda (output_config Select.alt3) s.io)
        (λ t. returns (
          RangeResult.ok,
          record t {
            link = i2c.i2c_set_slave_address default_address t.link;
            i2c_registers = i2c_configure t.i2c_registers;
            i2c_initialized = true;
          },
        ))
        s

  unfoldable pub vl53l0x_init_address : Idx → Proc S
  unfolding vl53l0x_set_hardware_standby i2c_slave device_is_booted vl53l0x_configure_address
  vl53l0x_init_address idx =
      vl53l0x_set_hardware_standby idx false
      ⨟ i2c_slave i2c default_address
      ⨟ device_is_booted i2c
      ⨟ vl53l0x_configure_address i2c (cfg_addr idx)

  unfoldable pub vl53l0x_init_addresses : Proc S
  unfolding vl53l0x_assert_xshut_pins vl53l0x_init_address
  vl53l0x_init_addresses =
      vl53l0x_assert_xshut_pins
      ⨟ vl53l0x_init_address Idx.front
      ⨟ vl53l0x_init_address Idx.left
      ⨟ vl53l0x_init_address Idx.right
      ⨟ vl53l0x_init_address Idx.front_left
      ⨟ vl53l0x_init_address Idx.front_right

module _ {S : Type 0} (i2c : I2cDriver S) (polls : ℕ) where
  unfoldable pub vl53l0x_init_config : Idx → Proc S
  unfolding i2c_slave vl53l0x_data_init vl53l0x_static_init vl53l0x_perform_ref_calibration
      front_interrupt_for
  vl53l0x_init_config idx =
      i2c_slave i2c (cfg_addr idx)
      ⨟ vl53l0x_data_init i2c
      ⨟ vl53l0x_static_init i2c polls
      ⨟ vl53l0x_perform_ref_calibration i2c polls
      ⨟ front_interrupt_for idx

  unfoldable pub vl53l0x_init : Proc S
  unfolding i2c_init vl53l0x_init_addresses vl53l0x_init_config mark_initialized
  vl53l0x_init s =
      assert_then (not s.initialized)
        (i2c_init i2c
          ⨟ vl53l0x_init_addresses i2c
          ⨟ vl53l0x_init_config Idx.front
          ⨟ vl53l0x_init_config Idx.left
          ⨟ vl53l0x_init_config Idx.right
          ⨟ vl53l0x_init_config Idx.front_left
          ⨟ vl53l0x_init_config Idx.front_right
          ⨟ mark_initialized)
        s
