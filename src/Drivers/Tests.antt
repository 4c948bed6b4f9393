-- ===== src/Drivers/Tests.antt =====
-- Runs of the definitions for src/drivers at concrete values, and the theorems there.
use nsumo_video.Prelude.{
  ◌>>=◌, ℕ, ◌+◌, ◌/◌, ◌≡◌, refl, ◌↔◌, true, false, some, List, [], ◌∷◌, ◌++◌, arith,
}
use nsumo_video.Common.RingBuffer.{RingBuffer}
use nsumo_video.Common.RingBuffer
use nsumo_video.Common.RingBuffer.Valid.{init-IsValid}
use nsumo_video.Drivers.Io.{
  io_port, io_pin_idx, reg_test, Select, Registers, io_configure, io_get_current_config,
  io_get_input, io_config_compare, input_config, output_config, io_initial_configs, io_init,
}
use nsumo_video.Drivers.Bits.{test_bit}
use nsumo_video.Drivers.Io.Pins.{io_34}
use nsumo_video.Drivers.Io.Configure
use nsumo_video.Drivers.Io.Configure.{
  io_get_current_config-io_configure, io_init_lem, io_config_compare_iff,
}
use nsumo_video.Drivers.Pwm.{Motor, Pwm, pwm_scale_duty_cycle, pwm_set_duty_cycle}
use nsumo_video.Drivers.Pwm.Enabled
use nsumo_video.Drivers.Pwm.Enabled.{duty, pwm_set_duty_cycle_lem}
use nsumo_video.Drivers.IrRemote.{Ir, receive, no_cmd, ir_remote_get_cmd}
use nsumo_video.Drivers.IrRemote.Frame.{AllShort, IsIdle}
use nsumo_video.Common.RingBuffer.Queue.{init-Holds}
use nsumo_video.Drivers.IrRemote.Message.{spell, message, ir_remote_get_cmd-receive}
use nsumo_video.Drivers.Fixtures.{
  reset_registers, reset_registers-IsValid, idle_pwm, idle_pwm-IsValid,
}

io_get_current_config-io_configure_example :
    io_get_current_config 13 (io_configure 15 (output_config Select.alt1) reset_registers)
    ≡ input_config
unfolding io_get_current_config reg_test test_bit io_port io_pin_idx
io_get_current_config-io_configure_example =
    io_get_current_config-io_configure 15 13 (output_config Select.alt1) reset_registers
      (omega arith) (omega arith) reset_registers-IsValid

is_nsumo : io_get_input io_34 reset_registers ≡ true
unfolding io_get_input reg_test test_bit io_port io_pin_idx
is_nsumo = refl

io_init_lem_example :
    (r : Registers) × (io_init reset_registers ≡ some r)
    × Configure.IsValid r
    × (io_get_current_config 21 r ≡ output_config Select.alt1)
unfolding io_initial_configs
io_init_lem_example = io_init_lem reset_registers 21 reset_registers-IsValid is_nsumo (omega arith)

io_config_compare_iff_example :
    (io_config_compare input_config (output_config Select.gpio) ≡ true)
    ↔ (input_config ≡ output_config Select.gpio)
io_config_compare_iff_example = io_config_compare_iff input_config (output_config Select.gpio)

pwm_set_duty_cycle_lem_example :
    (p : Pwm) × (pwm_set_duty_cycle Motor.left 40 idle_pwm ≡ some p)
    × Enabled.IsValid p
    × (duty Motor.left p ≡ pwm_scale_duty_cycle 40)
    × (duty Motor.right p ≡ duty Motor.right idle_pwm)
pwm_set_duty_cycle_lem_example =
    pwm_set_duty_cycle_lem Motor.left 40 idle_pwm idle_pwm-IsValid (omega arith)

abbrev idle_receiver : Ir
idle_receiver = record {
  raw = 0;
  timer_ms = 0;
  pulse_count = 0;
  running = false;
  ir_cmd_buffer = RingBuffer.init 10 0;
}

idle_receiver-IsIdle : IsIdle idle_receiver
idle_receiver-IsIdle = ground arith

-- The times of the bits of a number: 1 ms for a 0 and 2 ms for a 1.
abbrev times : List ℕ → List ℕ
times [] = []
times (b ∷ bs) = (b + 1) ∷ times bs

-- The first 31 bits of address 0 and command 0x18; the last one is 1.
abbrev sent : List ℕ
sent = times (spell 31 (message 0 0x18 / 2))

short : AllShort sent
short = ground arith

ir_remote_get_cmd-receive_example :
    (s : Ir) × ((receive (300 ∷ 9 ∷ sent ++ 2 ∷ []) idle_receiver >>= ir_remote_get_cmd)
      ≡ some (0x18, s))
    × (ir_remote_get_cmd s ≡ some (no_cmd, s))
ir_remote_get_cmd-receive_example =
    ir_remote_get_cmd-receive 300 9 sent 2 0 0x18 idle_receiver-IsIdle (omega arith) refl short
      (omega arith) (init-IsValid 10 0 (omega arith) (omega arith)) (init-Holds 10 0) (omega arith)
      (omega arith) refl
