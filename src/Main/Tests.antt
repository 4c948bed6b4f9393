-- ===== src/Main/Tests.antt =====
-- The start of the program at concrete values.
use nsumo_video.Prelude.{
  replicate, ap, ◌∙◌, ℕ, ◌≡◌, ◌↔◌, ◌⊎◌, refl, Bool, true, false, ◌&&◌, none, some, [], ◌∷◌,
}
use nsumo_video.Drivers.Bits.{set_bit, clear_bit, test_bit}
use nsumo_video.Drivers.Io.{
  io_port, io_pin_idx, reg_set, reg_clear, reg_test, io_set_out, io_get_input,
  io_get_current_config, io_config_compare,
}
use nsumo_video.Drivers.Io.Interrupts.{io_configure_interrupt}
use nsumo_video.Drivers.Pwm.{pwm_init}
use nsumo_video.Drivers.Tb6612fng.{tb6612fng_init, tb6612fng_assert_io_cfg}
use nsumo_video.Drivers.Vl53l0x.{
  RangeResult, out_of_range, StatusMultiple, Sensors, Run, returns, asserts, hangs, ◌⨟◌, poll,
}
use nsumo_video.Drivers.Vl53l0x.Multiple
use nsumo_video.Drivers.Vl53l0x.Multiple.{vl53l0x_read_range_multiple}
use nsumo_video.Drivers.Vl53l0x.Sanity.{SanityFails, vl53l0x_read_range_multiple-asserts_iff}
use nsumo_video.Drivers.Vl53l0x.Setup.{default_tuning_regs, measurement_ready}
use nsumo_video.Drivers.Vl53l0x.Boot.{front_interrupt_for}
use nsumo_video.Drivers.Vl53l0x.Transfers.{Link, i2c_driver}
use nsumo_video.Common.RingBuffer.{init, is_empty, count, put, peek_head}
use nsumo_video.App.StateMachine.{
  state_machine_init, find_transition, state_transitions, transition, process_event, process_input,
  state_enter,
}
use nsumo_video.App.StateWait.{state_wait_enter}
use nsumo_video.App.Enemy.{enemy_get, enemy_detected}
use nsumo_video.Drivers.IrRemote.{
  isr_pulse, push_message, count_pulse, ir_timer_stop, quiet, ir_timer_start,
}
use nsumo_video.App.Line.{line_get}
use nsumo_video.App.Machine.{Machine, has_internal_event}
use nsumo_video.App.Timer.{timer_timeout, timer_clear}
use nsumo_video.App.InputHistory.{input_history_save, input_equal}
use nsumo_video.Drivers.Vl53l0x.Ranging.{
  vl53l0x_start_measuring_multiple, vl53l0x_is_sysrange_done, vl53l0x_read_range,
}
use nsumo_video.Main.{Robot, motors_of, boot, ◌>>=◌}
use nsumo_video.Main.Booted.{Booted, BootsWell}
use nsumo_video.Main.Start.{boot-Booted}
use nsumo_video.Main.Round.{Surroundings, read_inputs, program}
use nsumo_video.Main.Round.Running.{Running}
use nsumo_video.Main.Round.Kept.{program-Running}
use nsumo_video.App.StateMachine.Invariant.{Inv}
use nsumo_video.Main.Round.Stops.{Stops, program-asserts_iff, program-failed_sensors}
use nsumo_video.Main.Fixtures.{
  sensors, present, reset_link, reset, reset-Reset, absent, i2c_driver-absent, state_of,
  absent_boot, boot_absent, boot_failed, sensors_driver, sensors_driver-IsTotal,
}

boot-Booted_example :
    BootsWell (Booted (reset reset_link)) (boot (i2c_driver present) 3 (reset reset_link))
boot-Booted_example = boot-Booted present 3 (reset reset_link) (reset-Reset reset_link)

-- What happens around a round with no pulse and no interrupt.
abbrev still : Surroundings
still = record {
  pulses = [];
  samples = none;
  front_done = false;
  interrupted = false;
  ranges_garbage = replicate 5 0;
  values_garbage = replicate 8 0;
  now_check = 5;
  now_start = 5;
}

program-asserts_iff_example :
    (program (i2c_driver present) 3 (still ∷ []) (reset reset_link) ≡ asserts) ↔ (
      (t : Robot Link) × (boot (i2c_driver present) 3 (reset reset_link) ≡ returns t)
      × Stops (i2c_driver present) 3 (still ∷ []) (t, state_machine_init (motors_of t)))
program-asserts_iff_example =
    program-asserts_iff present 3 (still ∷ []) (reset reset_link) (reset-Reset reset_link)

program-failed_sensors_example :
    program (i2c_driver absent) 3 (still ∷ []) (reset reset_link) ≡ asserts
program-failed_sensors_example =
    program-failed_sensors absent 3 still [] (reset reset_link) (state_of absent_boot)
      (reset-Reset reset_link)
      (ap (λ i. boot i 3 (reset reset_link)) i2c_driver-absent ∙ boot_absent) boot_failed

-- The sensors in the middle of a measurement.
abbrev measuring : Sensors ℕ
measuring = record (sensors 0) {
  initialized = true;
  status_multiple = StatusMultiple.done;
  latest_ranges = replicate 5 out_of_range;
}

abbrev before : Multiple.Reading
before = record { result = RangeResult.ok; ranges = []; fresh_values = false }

vl53l0x_read_range_multiple-asserts_iff_example :
    (vl53l0x_read_range_multiple sensors_driver 3 true before measuring ≡ asserts)
    ↔ ((measuring.initialized ≡ false) ⊎ SanityFails sensors_driver 3 true measuring)
vl53l0x_read_range_multiple-asserts_iff_example =
    vl53l0x_read_range_multiple-asserts_iff sensors_driver sensors_driver-IsTotal 3 true before
      measuring

abbrev is_started : {S : Type 0} → Run (Robot S) → Bool
is_started (returns t) = t.enemy_initialized && t.sensors.initialized
is_started asserts = false
is_started hangs = false

-- With sensors that answer, the whole start comes to its end.
boot_run : is_started (boot sensors_driver 2 (reset 0)) ≡ true
unfolding boot ◌⨟◌ test_bit default_tuning_regs front_interrupt_for io_config_compare
    io_get_current_config reg_test io_port io_pin_idx io_set_out reg_set set_bit
    io_configure_interrupt io_get_input tb6612fng_init tb6612fng_assert_io_cfg reg_clear clear_bit
    pwm_init poll measurement_ready
boot_run = refl

abbrev has_read : {A : Type 0} → Run A → Bool
has_read (returns t) = true
has_read asserts = false
has_read hangs = false

-- Behind the start, the front sensor interrupts while the first round waits for it.
read_inputs_run :
    has_read (
      boot sensors_driver 2 (reset 0) >>= λ t.
      read_inputs sensors_driver 2 (record still { interrupted = true }) t)
    ≡ true
unfolding boot ◌⨟◌ test_bit default_tuning_regs front_interrupt_for io_config_compare
    io_get_current_config reg_test io_port io_pin_idx io_set_out reg_set set_bit
    io_configure_interrupt io_get_input tb6612fng_init tb6612fng_assert_io_cfg reg_clear clear_bit
    pwm_init read_inputs vl53l0x_start_measuring_multiple vl53l0x_is_sysrange_done
    vl53l0x_read_range is_empty init
read_inputs_run = refl

-- Behind the start, a round in which the front sensor interrupts while the round waits for it, with new
-- samples of the line sensors and a pulse of a remote before it.
abbrev busy : Surroundings
busy = record still { interrupted = true; samples = some (replicate 6 900); pulses = 7 ∷ [] }

-- A round behind the next interrupt of the front sensor.
abbrev measured : Surroundings
measured = record still { front_done = true; now_check = 6; now_start = 6 }

abbrev first_rounds : Run (Robot ℕ × Machine)
first_rounds = program sensors_driver 2 (busy ∷ measured ∷ []) (reset 0)

program_run : has_read first_rounds ≡ true
unfolding boot ◌⨟◌ test_bit default_tuning_regs front_interrupt_for io_config_compare
    io_get_current_config reg_test io_port io_pin_idx io_set_out reg_set set_bit
    io_configure_interrupt io_get_input tb6612fng_init tb6612fng_assert_io_cfg reg_clear clear_bit
    pwm_init program vl53l0x_start_measuring_multiple vl53l0x_is_sysrange_done vl53l0x_read_range
    is_empty init find_transition state_transitions transition process_event process_input
    input_history_save enemy_get count put has_internal_event timer_timeout timer_clear line_get
    state_enter state_wait_enter isr_pulse push_message count_pulse ir_timer_stop quiet
    ir_timer_start enemy_detected peek_head input_equal
program_run = refl

-- What a run that has ended comes to.
abbrev end_of : {A : Type 0} → A → Run A → A
end_of d (returns a) = a
end_of d asserts = d
end_of d hangs = d

end_of-returns : {A : Type 0} → (d : A) (x : Run A) → has_read x ≡ true → x ≡ returns (end_of d x)
end_of-returns d (returns a) h = refl
end_of-returns d asserts h = cc
end_of-returns d hangs h = cc

-- Where a run starts.
abbrev unstarted : Robot ℕ × Machine
unstarted = let r : Robot ℕ = reset 0 in (r, state_machine_init (motors_of r))

abbrev last_state : Robot ℕ × Machine
last_state = end_of unstarted first_rounds

program-Running_example : Running last_state.0 × Inv last_state.1
program-Running_example =
    program-Running sensors_driver sensors_driver-IsTotal 2 (busy ∷ measured ∷ []) (reset 0)
      last_state.0 last_state.1 (reset-Reset 0) (end_of-returns unstarted first_rounds program_run)
