-- ===== src/Drivers/Tb6612fng/Outputs.antt =====
-- What a motor's pins show after the calls of src/drivers/tb6612fng.c.
use nsumo_video.Prelude.{
  ◌==◌, if◌then◌else◌, ℕ, ◌≤◌, ◌<◌, ◌≡◌, refl, ap, ◌∙◌, Bool, true, false, some, arith,
}
use nsumo_video.Drivers.Io.{reg_test, Out, Registers, io_set_out}
use nsumo_video.Drivers.Io.Bytes.{reg_test-reg_set, reg_test-reg_clear}
use nsumo_video.Drivers.Io.Configure
use nsumo_video.Drivers.Io.Configure.{io_set_out-IsValid}
use nsumo_video.Drivers.Pwm.{Motor, pwm_scale_duty_cycle}
use nsumo_video.Drivers.Pwm.Enabled
use nsumo_video.Drivers.Tb6612fng.{
  Mode, Motors, cc1, cc2, cc1_out, cc2_out, tb6612fng_set_mode, tb6612fng_set_pwm,
}

pub record IsDriver (m : Motors) : Type 0 where
  pub io_valid : Configure.IsValid m.io
  pub pwm_valid : Enabled.IsValid m.pwm

-- The levels of a motor's two control pins, and its duty cycle.
pub record Output : Type 0 where
  pub level_1 : Bool
  pub level_2 : Bool
  pub duty : ℕ

unfoldable pub output : Motor → Motors → Output
output tb m = record {
  level_1 = reg_test (cc1 tb) m.io.out;
  level_2 = reg_test (cc2 tb) m.io.out;
  duty = Enabled.duty tb m.pwm;
}

abbrev pub is_high : Out → Bool
is_high Out.low = false
is_high Out.high = true

pub reg_test-io_set_out :
    (io jo : ℕ) (o : Out) (r : Registers)
    → io < 24
    → jo < 24
    → Configure.IsValid r
    → reg_test jo (io_set_out io o r).out ≡ (if io == jo then is_high o else reg_test jo r.out)
unfolding io_set_out
reg_test-io_set_out io jo o r k l h = ground (
  arith,
  reg_test-reg_set io jo r.out k l h.out_ports,
  reg_test-reg_clear io jo r.out k l h.out_ports,
)

two_pins :
    (io jo lo : ℕ) (a b : Out) (r : Registers)
    → io < 24
    → jo < 24
    → lo < 24
    → Configure.IsValid r
    → reg_test lo (io_set_out jo b (io_set_out io a r)).out
      ≡ (if jo == lo then is_high b else if io == lo then is_high a else reg_test lo r.out)
two_pins io jo lo a b r ki kj kl h =
    reg_test-io_set_out jo lo b (io_set_out io a r) kj kl (io_set_out-IsValid io ki h a)
    ∙ ap (λ (t : Bool). if jo == lo then is_high b else t) (reg_test-io_set_out io lo a r ki kl h)

cc-lt : (tb : Motor) → (cc1 tb < 24) × (cc2 tb < 24)
cc-lt Motor.left = omega arith
cc-lt Motor.right = omega arith

set_mode-IsDriver :
    (tb : Motor) (mode : Mode) (m : Motors) → IsDriver m → IsDriver (tb6612fng_set_mode tb mode m)
unfolding tb6612fng_set_mode
set_mode-IsDriver tb mode m h = record {
  io_valid =
      io_set_out-IsValid (cc2 tb) (cc-lt tb).1
        (io_set_out-IsValid (cc1 tb) (cc-lt tb).0 h.io_valid (cc1_out mode)) (cc2_out mode);
  pwm_valid = h.pwm_valid;
}

set_mode_pin :
    (tb : Motor) (mode : Mode) (m : Motors) (lo : ℕ)
    → lo < 24
    → IsDriver m
    → reg_test lo (tb6612fng_set_mode tb mode m).io.out ≡ (
        if cc2 tb == lo
        then is_high (cc2_out mode)
        else if cc1 tb == lo
        then is_high (cc1_out mode)
        else reg_test lo m.io.out)
unfolding tb6612fng_set_mode
set_mode_pin tb mode m lo k h =
    two_pins (cc1 tb) (cc2 tb) lo (cc1_out mode) (cc2_out mode) m.io (cc-lt tb).0 (cc-lt tb).1 k
      h.io_valid

-- The two control pins of the motor take the levels of the mode. Its duty cycle, the other motor's
-- pins and the well-formedness of the registers are kept.
pub tb6612fng_set_mode_lem :
    (tb : Motor) (mode : Mode) (m : Motors)
    → IsDriver m
    → IsDriver (tb6612fng_set_mode tb mode m)
      × (output tb (tb6612fng_set_mode tb mode m) ≡ record {
        level_1 = is_high (cc1_out mode);
        level_2 = is_high (cc2_out mode);
        duty = (output tb m).duty;
      })
      × (output (Enabled.other tb) (tb6612fng_set_mode tb mode m) ≡ output (Enabled.other tb) m)
unfolding tb6612fng_set_mode output
tb6612fng_set_mode_lem Motor.left mode m h = (
  set_mode-IsDriver Motor.left mode m h,
  λ i. record {
    level_1 = set_mode_pin Motor.left mode m 13 (omega arith) h i;
    level_2 = set_mode_pin Motor.left mode m 12 (omega arith) h i;
    duty = Enabled.duty Motor.left m.pwm;
  },
  λ i. record {
    level_1 = set_mode_pin Motor.left mode m 23 (omega arith) h i;
    level_2 = set_mode_pin Motor.left mode m 15 (omega arith) h i;
    duty = Enabled.duty Motor.right m.pwm;
  },
)
tb6612fng_set_mode_lem Motor.right mode m h = (
  set_mode-IsDriver Motor.right mode m h,
  λ i. record {
    level_1 = set_mode_pin Motor.right mode m 23 (omega arith) h i;
    level_2 = set_mode_pin Motor.right mode m 15 (omega arith) h i;
    duty = Enabled.duty Motor.right m.pwm;
  },
  λ i. record {
    level_1 = set_mode_pin Motor.right mode m 13 (omega arith) h i;
    level_2 = set_mode_pin Motor.right mode m 12 (omega arith) h i;
    duty = Enabled.duty Motor.left m.pwm;
  },
)

-- Up to 100 percent the motor's duty cycle becomes the scaled percentage; the pins, and the other
-- motor, are kept.
pub tb6612fng_set_pwm_lem :
    (tb : Motor) (percent : ℕ) (m : Motors)
    → IsDriver m
    → percent ≤ 100
    → (m' : Motors) × (tb6612fng_set_pwm tb percent m ≡ some m')
      × IsDriver m'
      × (output tb m' ≡ record (output tb m) { duty = pwm_scale_duty_cycle percent })
      × (output (Enabled.other tb) m' ≡ output (Enabled.other tb) m)
unfolding tb6612fng_set_pwm output
tb6612fng_set_pwm_lem tb percent m h k =
    let (p, e, v, d, o) = Enabled.pwm_set_duty_cycle_lem tb percent m.pwm h.pwm_valid k in
    (
      record m { pwm = p },
      rw e refl,
      record { io_valid = h.io_valid; pwm_valid = v },
      λ i. record {
        level_1 = reg_test (cc1 tb) m.io.out;
        level_2 = reg_test (cc2 tb) m.io.out;
        duty = d i;
      },
      λ i. record {
        level_1 = reg_test (cc1 (Enabled.other tb)) m.io.out;
        level_2 = reg_test (cc2 (Enabled.other tb)) m.io.out;
        duty = o i;
      },
    )
