-- ===== src/Drivers/Pwm/Enabled.antt =====
-- What the timer does after the calls of src/drivers/pwm.c.
use nsumo_video.Prelude.{ltb, if◌then◌else◌, ℕ, ◌≤◌, ◌<◌, ◌≡◌, ◌↔◌, ◌&&◌, ◌||◌, none, some, arith}
use nsumo_video.Drivers.Pwm.{
  Motor, Pwm, channel, with_channel, pwm_channel_enable, pwm_scale_duty_cycle, pwm_set_duty_cycle,
}

-- A channel has its output mode on exactly where it is enabled, and the timer runs exactly where
-- some channel is.
pub record IsValid (p : Pwm) : Type 0 where
  pub left_mode : p.left.outmod_7 ≡ p.left.enabled
  pub right_mode : p.right.outmod_7 ≡ p.right.enabled
  pub known : p.running ≡ p.pwm_enabled
  pub on_demand : p.pwm_enabled ≡ (p.left.enabled || p.right.enabled)

-- The duty cycle of a motor as its pin shows it, in ticks of the period of 100.
abbrev pub duty : Motor → Pwm → ℕ
duty motor p = if (channel motor p).outmod_7 && p.running then (channel motor p).ccr else 0

abbrev pub other : Motor → Motor
other Motor.left = Motor.right
other Motor.right = Motor.left

-- The state that `pwm_set_duty_cycle` leaves, when its assertion holds.
after_duty : Motor → ℕ → Pwm → Pwm
after_duty motor percent p = pwm_channel_enable motor (ltb 0 percent) (
    if ltb 0 percent
    then with_channel motor (record (channel motor p) { ccr = pwm_scale_duty_cycle percent }) p
    else p)

after_duty_lem :
    (motor : Motor) (percent : ℕ) (p : Pwm)
    → IsValid p
    → IsValid (after_duty motor percent p)
      × (duty motor (after_duty motor percent p) ≡ pwm_scale_duty_cycle percent)
      × (duty (other motor) (after_duty motor percent p) ≡ duty (other motor) p)
unfolding after_duty pwm_channel_enable pwm_scale_duty_cycle
after_duty_lem Motor.left percent p h = ground arith
after_duty_lem Motor.right percent p h = ground arith

-- Above 100 percent `pwm_set_duty_cycle` fails its assertion.
pub pwm_set_duty_cycle_above :
    (motor : Motor) (percent : ℕ) (p : Pwm)
    → 100 < percent
    → pwm_set_duty_cycle motor percent p ≡ none
unfolding pwm_set_duty_cycle
pwm_set_duty_cycle_above motor percent p k = ground arith

-- Up to 100 percent `pwm_set_duty_cycle` fails no assertion and keeps the two channels' state
-- consistent with the timer's. The motor's duty cycle becomes the scaled percentage, and the other
-- motor's does not change.
pub pwm_set_duty_cycle_lem :
    (motor : Motor) (percent : ℕ) (p : Pwm)
    → IsValid p
    → percent ≤ 100
    → (p' : Pwm) × (pwm_set_duty_cycle motor percent p ≡ some p')
      × IsValid p'
      × (duty motor p' ≡ pwm_scale_duty_cycle percent)
      × (duty (other motor) p' ≡ duty (other motor) p)
unfolding pwm_set_duty_cycle after_duty
pwm_set_duty_cycle_lem motor percent p h k =
    let (v, d, o) = after_duty_lem motor percent p h in
    (after_duty motor percent p, ground arith, v, d, o)

-- The scaled duty cycle is at most three quarters of the period, grows with the percentage, and is 0
-- for 0 percent only.
pub pwm_scale_duty_cycle_lem :
    (a b : ℕ)
    → a ≤ b
    → b ≤ 100
    → (pwm_scale_duty_cycle b ≤ 75)
      × (pwm_scale_duty_cycle a ≤ pwm_scale_duty_cycle b)
      × ((pwm_scale_duty_cycle a ≡ 0) ↔ (a ≡ 0))
unfolding pwm_scale_duty_cycle
pwm_scale_duty_cycle_lem a b h k = ground arith
