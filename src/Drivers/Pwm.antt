-- ===== src/Drivers/Pwm.antt =====
-- src/drivers/pwm.c, for the build with NSUMO defined: timer A0 drives the two motor channels.
pub mod Enabled
use nsumo_video.Prelude.{
  ltb, leb, ◌==◌, if◌then◌else◌, ◌>>=◌, ◌>>◌, assert, ℕ, ◌-◌, ◌*◌, ◌/◌, ◌%◌, Bool, true, false, not,
  Option, some,
}
use nsumo_video.Drivers.Io.{
  Select, Registers, io_get_current_config, io_config_compare, output_config,
}
use nsumo_video.Drivers.Io.Pins.{io_pwm_motors_left, io_pwm_motors_right}

-- `pwm_e`, and `tb6612fng_e`: static_asserts say that the two have the same values.
pub data Motor : Type 0 where
  left right : Motor

-- An entry of `pwm_cfgs` with the registers it points to: `outmod_7` says that the channel's
-- control register holds OUTMOD_7 (and not OUTMOD_0), and `ccr` is its compare register.
pub record Channel : Type 0 where
  pub enabled : Bool
  pub outmod_7 : Bool
  pub ccr : ℕ

-- `running` says that TA0CTL has the mode MC_1 (and not MC_0), `tassel` and `divider` are its fields for the
-- clock and the input divider, and `ta0ccr0` is the period.
pub record Pwm : Type 0 where
  pub left : Channel
  pub right : Channel
  pub pwm_enabled : Bool
  pub running : Bool
  pub tassel : ℕ
  pub divider : ℕ
  pub ta0ccr0 : ℕ
  pub initialized : Bool

-- PWM_TA0CCR0: 16 MHz / 8 / 20 kHz, less one.
abbrev pub pwm_ta0ccr0 : ℕ
pwm_ta0ccr0 = 16000000 / 8 / 20000 - 1

abbrev pub channel : Motor → Pwm → Channel
channel Motor.left p = p.left
channel Motor.right p = p.right

abbrev pub with_channel : Motor → Channel → Pwm → Pwm
with_channel Motor.left c p = record p { left = c }
with_channel Motor.right c p = record p { right = c }

-- The loop goes over the two entries of `pwm_cfgs`.
unfoldable pub pwm_all_channels_disabled : Pwm → Bool
pwm_all_channels_disabled p = if p.left.enabled then false else not p.right.enabled

abbrev same : Bool → Bool → Bool
same true b = b
same false b = not b

unfoldable pub pwm_enable : Bool → Pwm → Pwm
pwm_enable enable p =
    if same p.pwm_enabled enable then p else record p { running = enable; pwm_enabled = enable }

unfoldable pub pwm_channel_enable : Motor → Bool → Pwm → Pwm
unfolding pwm_all_channels_disabled pwm_enable
pwm_channel_enable motor enable p =
    if same (channel motor p).enabled enable
    then p
    else (let q =
          with_channel motor (record (channel motor p) { outmod_7 = enable; enabled = enable }) p in
        if enable
        then pwm_enable true q
        else if pwm_all_channels_disabled q
        then pwm_enable false q
        else q)

unfoldable pub pwm_scale_duty_cycle : ℕ → ℕ
pwm_scale_duty_cycle percent = if percent == 1 then percent else percent * 3 / 4 % 256

unfoldable pub pwm_set_duty_cycle : Motor → ℕ → Pwm → Option Pwm
unfolding pwm_channel_enable pwm_scale_duty_cycle
pwm_set_duty_cycle motor percent p = do
  assert (leb percent 100)
  let enable = ltb 0 percent
  let q =
      if enable
      then with_channel motor (record (channel motor p) { ccr = pwm_scale_duty_cycle percent }) p
      else p
  some (pwm_channel_enable motor enable q)

-- TASSEL_2, ID_3 and MC_0 are written to TA0CTL.
unfoldable pub pwm_init : Registers → Pwm → Option Pwm
pwm_init r p = do
  assert (not p.initialized)
  assert
      (io_config_compare (io_get_current_config io_pwm_motors_left r) (output_config Select.alt1))
  assert
      (io_config_compare (io_get_current_config io_pwm_motors_right r) (output_config Select.alt1))
  some (record p {
    running = false;
    tassel = 2;
    divider = 3;
    ta0ccr0 = pwm_ta0ccr0;
    initialized = true;
  })
