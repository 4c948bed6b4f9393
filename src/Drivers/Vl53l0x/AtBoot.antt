-- ===== src/Drivers/Vl53l0x/AtBoot.antt =====
-- The assertions on pins in src/drivers/led.c, i2c.c and vl53l0x.c, behind `io_init`.
use nsumo_video.Prelude.{
  get_or, ℕ, ◌<◌, ◌≡◌, refl, sym, ap, subst, ◌∙◌, true, false, not, ◌&&◌, some, arith,
}
use nsumo_video.Drivers.I2c.{i2c_configure}
use nsumo_video.Drivers.Io.{
  Select, Config, Registers, io_get_current_config, io_config_compare, input_config, output_config,
  io_initial_configs, io_init,
}
use nsumo_video.Drivers.Io.Configure
use nsumo_video.Drivers.Io.Configure.{io_config_compare_iff}
use nsumo_video.Drivers.Led.{led_init}
use nsumo_video.Drivers.Tb6612fng.Boot.{AtInitial, io_init-AtInitial}
use nsumo_video.Drivers.Io.Pins.{
  io_i2c_scl, io_i2c_sda, io_xshut_front, io_xshut_front_right, io_xshut_right, io_xshut_front_left,
  io_xshut_left,
}
use nsumo_video.Drivers.Vl53l0x.{RangeResult, I2cDriver, Sensors, returns, return, assert_then}
use nsumo_video.Drivers.Vl53l0x.Boot.{
  default_address, config_is, vl53l0x_assert_xshut_pins, i2c_init,
}

pub config_at :
    (io : ℕ) (c : Config) (r : Registers)
    → AtInitial r
    → io < 24
    → get_or io_initial_configs io input_config ≡ c
    → io_config_compare c (io_get_current_config io r) ≡ true
config_at io c r h k e = (io_config_compare_iff c _).1 (sym (h io k ∙ e))

pub vl53l0x_assert_xshut_pins-AtInitial :
    {S : Type 0}
    → (s : Sensors S) → AtInitial s.io
    → vl53l0x_assert_xshut_pins s ≡ returns (RangeResult.ok, s)
unfolding vl53l0x_assert_xshut_pins config_is io_initial_configs
vl53l0x_assert_xshut_pins-AtInitial s at =
    let low = output_config Select.gpio in
    let standby : (config_is io_xshut_front low s.io
          && config_is io_xshut_front_left low s.io
          && config_is io_xshut_front_right low s.io
          && config_is io_xshut_left low s.io
          && config_is io_xshut_right low s.io)
        ≡ true =
      ground (
        arith,
        config_at 10 low s.io at (omega arith) refl,
        config_at 18 low s.io at (omega arith) refl,
        config_at 16 low s.io at (omega arith) refl,
        config_at 19 low s.io at (omega arith) refl,
        config_at 17 low s.io at (omega arith) refl,
      ) in
    ap (λ c. assert_then c (return RangeResult.ok) s) standby

module _ {S : Type 0} (i2c : I2cDriver S) where
  -- On the registers that a successful `io_init` leaves: `i2c_init`, the first step of
  -- `vl53l0x_init_addresses` and `led_init` pass their assertions on the pins, if they were not called
  -- before. All five sensors are then in standby, and `i2c_init` selects the sensors' default address.
  pub i2c_init-io_init :
      (r r' : Registers) (s : Sensors S)
      → Configure.IsValid r
      → io_init r ≡ some r'
      → s.io ≡ r'
      → s.i2c_initialized ≡ false
      → (i2c_init i2c s
          ≡ returns (
            RangeResult.ok,
            record s {
              link = i2c.i2c_set_slave_address default_address s.link;
              i2c_registers = i2c_configure s.i2c_registers;
              i2c_initialized = true;
            },
          ))
        × (vl53l0x_assert_xshut_pins s ≡ returns (RangeResult.ok, s))
        × (led_init false s.io ≡ some true)
  unfolding i2c_init led_init config_is io_initial_configs
  i2c_init-io_init r r' s h e q n =
      let at : AtInitial s.io = subst AtInitial (sym q) (io_init-AtInitial r r' h e) in
      let scl = config_at 6 (output_config Select.alt3) s.io at (omega arith) refl in
      let sda = config_at 7 (output_config Select.alt3) s.io at (omega arith) refl in
      let bus : (not s.i2c_initialized
            && config_is io_i2c_scl (output_config Select.alt3) s.io
            && config_is io_i2c_sda (output_config Select.alt3) s.io)
          ≡ true =
        ground (arith, n, scl, sda) in
      (
        ap
            (λ c.
              assert_then c
                (λ t. returns (
                  RangeResult.ok,
                  record t {
                    link = i2c.i2c_set_slave_address default_address t.link;
                    i2c_registers = i2c_configure t.i2c_registers;
                    i2c_initialized = true;
                  },
                ))
                s)
            bus,
        vl53l0x_assert_xshut_pins-AtInitial s at,
        ground (arith, config_at 14 (output_config Select.gpio) s.io at (omega arith) refl),
      )
