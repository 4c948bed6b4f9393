-- ===== src/Drivers/Tb6612fng.antt =====
-- src/drivers/tb6612fng.c, for the build with NSUMO defined: two control pins and a PWM channel for
-- each motor.
pub mod Outputs
pub mod Boot
use nsumo_video.Prelude.{◌>>=◌, ◌>>◌, assert, ℕ, Bool, true, not, Option, some}
use nsumo_video.Drivers.Io.{
  Select, Out, Registers, io_set_out, io_get_current_config, io_config_compare, output_config,
}
use nsumo_video.Drivers.Io.Pins.{
  io_motors_left_cc_2, io_motors_left_cc_1, io_motors_right_cc_2, io_motors_right_cc_1,
}
use nsumo_video.Drivers.Pwm.{Motor, Pwm, pwm_set_duty_cycle, pwm_init}

-- `tb6612fng_mode_e`
pub data Mode : Type 0 where
  stop forward reverse : Mode

-- The hardware below the driver: the pins and the PWM timer.
pub record Motors : Type 0 where
  pub io : Registers
  pub pwm : Pwm
  pub initialized : Bool

-- `tb6612fng_cc_pins`
abbrev pub cc1 : Motor → ℕ
cc1 Motor.left = io_motors_left_cc_1
cc1 Motor.right = io_motors_right_cc_1

abbrev pub cc2 : Motor → ℕ
cc2 Motor.left = io_motors_left_cc_2
cc2 Motor.right = io_motors_right_cc_2

abbrev pub cc1_out : Mode → Out
cc1_out Mode.stop = Out.low
cc1_out Mode.forward = Out.high
cc1_out Mode.reverse = Out.low

abbrev pub cc2_out : Mode → Out
cc2_out Mode.stop = Out.low
cc2_out Mode.forward = Out.low
cc2_out Mode.reverse = Out.high

-- Each case of the switch sets the first pin, and then the second.
unfoldable pub tb6612fng_set_mode : Motor → Mode → Motors → Motors
tb6612fng_set_mode tb mode m = record m {
  io = io_set_out (cc2 tb) (cc2_out mode) (io_set_out (cc1 tb) (cc1_out mode) m.io);
}

unfoldable pub tb6612fng_set_pwm : Motor → ℕ → Motors → Option Motors
tb6612fng_set_pwm tb duty_cycle m =
    pwm_set_duty_cycle tb duty_cycle m.pwm >>= λ p. some (record m { pwm = p })

assert_cc : ℕ → Registers → Option (Unit {0})
assert_cc io r = assert (io_config_compare (io_get_current_config io r) (output_config Select.gpio))

unfoldable pub tb6612fng_assert_io_cfg : Registers → Option (Unit {0})
unfolding assert_cc
tb6612fng_assert_io_cfg r = do
  assert_cc io_motors_left_cc_1 r
  assert_cc io_motors_left_cc_2 r
  assert_cc io_motors_right_cc_1 r
  assert_cc io_motors_right_cc_2 r

unfoldable pub tb6612fng_init : Motors → Option Motors
tb6612fng_init m = do
  assert (not m.initialized)
  tb6612fng_assert_io_cfg m.io
  p ← pwm_init m.io m.pwm
  some (record m { pwm = p; initialized = true })
