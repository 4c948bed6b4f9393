-- ===== src/Drivers/Vl53l0x/Started.antt =====
-- `vl53l0x_init` of src/drivers/vl53l0x.c behind `io_init`: the assertions on the pins, on the interrupt
-- table and on the sizes of the transfers.
use nsumo_video.Prelude.{ℕ, ◌≡◌, sym, subst, ◌∙◌, true, false, not, some, none, arith}
use nsumo_video.Drivers.I2c.{i2c_configure}
use nsumo_video.Drivers.Io.{Registers, io_init}
use nsumo_video.Drivers.Io.Configure
use nsumo_video.Drivers.Io.Configure.{io_set_out-IsValid, io_config_compare_iff}
use nsumo_video.Drivers.Io.Pins.{io_range_sensor_front_int, io_ir_remote}
use nsumo_video.Drivers.Io.Interrupts.{isr_function}
use nsumo_video.Drivers.Io.Interrupts.Configured
use nsumo_video.Drivers.Tb6612fng.Boot.{AtInitial, io_init-AtInitial, io_init-IsValid}
use nsumo_video.Drivers.Vl53l0x.{Idx, RangeResult, I2cDriver, Sensors, then_run, ◌⨟◌, assert_then}
use nsumo_video.Drivers.Vl53l0x.Setup.{vl53l0x_configure_address}
use nsumo_video.Drivers.Vl53l0x.Boot.{
  default_address, cfg_addr, vl53l0x_configure_front_sensor_interrupt, front_interrupt_for,
  mark_initialized, i2c_init, vl53l0x_init_address, vl53l0x_init_addresses, vl53l0x_init_config,
  vl53l0x_init,
}
use nsumo_video.Drivers.Vl53l0x.AtBoot.{i2c_init-io_init}
use nsumo_video.Drivers.Vl53l0x.Safe.{
  EndsWell, Safe, IsTotal, Safe-then, Safe-return, Safe-write8, Safe-i2c_slave,
  Safe-device_is_booted, Safe-vl53l0x_data_init,
}
use nsumo_video.Drivers.Vl53l0x.Configured.{
  Safe-vl53l0x_static_init, Safe-vl53l0x_perform_ref_calibration,
}
use nsumo_video.Drivers.Vl53l0x.Prepared.{
  Waiting, Prepared, Fresh, front_entry, moved-Waiting, moved, Prepared-Waiting, Waiting-Waiting,
  Safe-vl53l0x_set_hardware_standby, Safe-vl53l0x_assert_xshut_pins,
  Safe-vl53l0x_configure_front_sensor_interrupt, Done, Safe-mark_initialized,
}

module _ {S : Type 0} (i2c : I2cDriver S) (total : IsTotal i2c) where
  Safe-vl53l0x_init_address :
      (idx : Idx) → Safe Waiting Prepared Prepared (vl53l0x_init_address i2c idx)
  unfolding vl53l0x_init_address vl53l0x_configure_address
  Safe-vl53l0x_init_address idx =
      Safe-then Waiting Prepared Prepared Prepared _ _ (Safe-vl53l0x_set_hardware_standby idx) (
        Safe-then Waiting Prepared Prepared Prepared _ _
          (Safe-i2c_slave i2c total Waiting Prepared Prepared-Waiting moved default_address)
          (Safe-then Waiting Prepared Prepared Prepared _ _
            (Safe-device_is_booted i2c total Waiting Prepared Prepared-Waiting moved)
            (Safe-write8 i2c total Waiting Prepared Prepared-Waiting moved _ _)))

  Safe-vl53l0x_init_addresses : Safe Waiting Fresh Prepared (vl53l0x_init_addresses i2c)
  unfolding vl53l0x_init_addresses
  Safe-vl53l0x_init_addresses =
      Safe-then Waiting Fresh Prepared Prepared _ _ Safe-vl53l0x_assert_xshut_pins
        (search (Safe-then Waiting Prepared Prepared Prepared, Safe-vl53l0x_init_address) depth 8)

  -- The configuration of a sensor, for what the front sensor's interrupt needs.
  Safe-vl53l0x_init_config :
      (polls : ℕ) (P R : Sensors S → Type 0) (idx : Idx)
      → ((s : Sensors S) → P s → Waiting s)
      → ((s : Sensors S) (l : S) (v : ℕ) → P s → P (record s { link = l; stop_variable = v }))
      → Safe Waiting P R (front_interrupt_for idx)
      → Safe Waiting P R (vl53l0x_init_config i2c polls idx)
  unfolding vl53l0x_init_config
  Safe-vl53l0x_init_config polls P R idx weak apart h =
      Safe-then Waiting P P R _ _ (Safe-i2c_slave i2c total Waiting P weak apart (cfg_addr idx)) (
        Safe-then Waiting P P R _ _ (Safe-vl53l0x_data_init i2c total Waiting P weak apart) (
          Safe-then Waiting P P R _ _
            (Safe-vl53l0x_static_init i2c total Waiting P weak apart polls)
            (Safe-then Waiting P P R _ _
              (Safe-vl53l0x_perform_ref_calibration i2c total Waiting P weak apart polls) h)))

  other_config :
      (polls : ℕ) (idx : Idx)
      → Safe {S = S} Waiting Waiting Waiting (front_interrupt_for idx)
      → Safe {S = S} Waiting Waiting Waiting (vl53l0x_init_config i2c polls idx)
  other_config polls idx h =
      Safe-vl53l0x_init_config polls Waiting Waiting idx Waiting-Waiting moved-Waiting h

  Safe-vl53l0x_init_configs :
      (polls : ℕ)
      → Safe Waiting Prepared Done (
          vl53l0x_init_config i2c polls Idx.front
          ⨟ vl53l0x_init_config i2c polls Idx.left
          ⨟ vl53l0x_init_config i2c polls Idx.right
          ⨟ vl53l0x_init_config i2c polls Idx.front_left
          ⨟ vl53l0x_init_config i2c polls Idx.front_right
          ⨟ mark_initialized)
  unfolding vl53l0x_configure_front_sensor_interrupt front_interrupt_for
  Safe-vl53l0x_init_configs polls =
      let skip = Safe-return Waiting Waiting Waiting-Waiting RangeResult.ok in
      Safe-then Waiting Prepared Waiting Done _ _
        (Safe-vl53l0x_init_config polls Prepared Waiting Idx.front Prepared-Waiting moved
          Safe-vl53l0x_configure_front_sensor_interrupt)
        (Safe-then Waiting Waiting Waiting Done _ _ (other_config polls Idx.left skip) (
          Safe-then Waiting Waiting Waiting Done _ _ (other_config polls Idx.right skip) (
            Safe-then Waiting Waiting Waiting Done _ _ (other_config polls Idx.front_left skip) (
              Safe-then Waiting Waiting Waiting Done _ _ (other_config polls Idx.front_right skip)
                Safe-mark_initialized))))

  pub vl53l0x_init-EndsWell :
      (polls : ℕ) (r r' : Registers) (s : Sensors S)
      → Configure.IsValid r
      → io_init r ≡ some r'
      → s.io ≡ r'
      → s.i2c_initialized ≡ false
      → s.initialized ≡ false
      → Configured.IsValid s.interrupts
      → isr_function io_range_sensor_front_int s.interrupts ≡ none
      → isr_function io_ir_remote s.interrupts ≡ none
      → EndsWell Waiting Done (vl53l0x_init i2c polls s)
  unfolding vl53l0x_init ◌⨟◌
  vl53l0x_init-EndsWell polls r r' s h e q n m w f g =
      let at : AtInitial s.io = subst AtInitial (sym q) (io_init-AtInitial r r' h e) in
      let v : Configure.IsValid s.io = subst Configure.IsValid (sym q) (io_init-IsValid r r' h e) in
      let rest =
        vl53l0x_init_addresses i2c
        ⨟ vl53l0x_init_config i2c polls Idx.front
        ⨟ vl53l0x_init_config i2c polls Idx.left
        ⨟ vl53l0x_init_config i2c polls Idx.right
        ⨟ vl53l0x_init_config i2c polls Idx.front_left
        ⨟ vl53l0x_init_config i2c polls Idx.front_right
        ⨟ mark_initialized in
      let fresh : Fresh (record s {
        link = i2c.i2c_set_slave_address default_address s.link;
        i2c_registers = i2c_configure s.i2c_registers;
        i2c_initialized = true;
      }) =
        record {
          prepared = record {
            waiting = record {
              alive = record { valid = v; tables = w; remote_free = g };
              not_yet = m;
            };
            front_pin = at 9 (omega arith) ∙ front_entry;
            free = f;
          };
          at_initial = at;
        } in
      let all =
        Safe-then Waiting Fresh Prepared Done _ _ Safe-vl53l0x_init_addresses
          (Safe-vl53l0x_init_configs polls) in
      subst (λ b. EndsWell Waiting Done (assert_then (not b) (i2c_init i2c ⨟ rest) s)) (sym m)
        (subst (λ x. EndsWell Waiting Done (then_run x rest))
          (sym (i2c_init-io_init i2c r r' s h e q n).0) (all.safe _ fresh))
