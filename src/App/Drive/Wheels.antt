-- ===== src/App/Drive/Wheels.antt =====
-- What the motors do after the calls of src/app/drive.c.
use nsumo_video.Prelude.{
  ◌==◌, ◌>>=◌, ℕ, ◌≤◌, ◌<◌, ◌≡◌, ap, ◌∙◌, ◌⊎◌, true, false, not, ◌&&◌, some, arith,
}
use nsumo_video.Drivers.Pwm.{Motor, pwm_scale_duty_cycle}
use nsumo_video.Drivers.Tb6612fng.{
  Mode, Motors, cc1_out, cc2_out, tb6612fng_set_mode, tb6612fng_set_pwm,
}
use nsumo_video.Drivers.Tb6612fng.Outputs.{
  IsDriver, Output, output, is_high, tb6612fng_set_mode_lem, tb6612fng_set_pwm_lem,
}
use nsumo_video.App.Types.{DriveDir, DriveSpeed}
use nsumo_video.App.Drive.{is_positive, abs8, drive_speeds, mode_of, drive_set, drive_stop}

-- What a motor shows at a speed (an int8_t byte).
abbrev pub turning : ℕ → Output
turning byte = record {
  level_1 = is_positive byte;
  level_2 = not (is_positive byte);
  duty = pwm_scale_duty_cycle (abs8 byte);
}

abbrev pub stopped : Output
stopped = record { level_1 = false; level_2 = false; duty = 0 }

-- No speed is 0, and none is above 100 percent.
drive_speeds_in_range :
    (d : DriveDir) (s : DriveSpeed)
    → ((not ((drive_speeds d s).left == 0) && not ((drive_speeds d s).right == 0)) ≡ true)
      × (abs8 (drive_speeds d s).left ≤ 100)
      × (abs8 (drive_speeds d s).right ≤ 100)
unfolding drive_speeds
drive_speeds_in_range DriveDir.forward s = ground arith
drive_speeds_in_range _ s = ground arith

level_of :
    (byte : ℕ)
    → (is_high (cc1_out (mode_of byte)) ≡ is_positive byte)
      × (is_high (cc2_out (mode_of byte)) ≡ not (is_positive byte))
level_of byte = ground arith

turning_of :
    (byte : ℕ)
    → ◌≡◌ {A = Output}
        (record {
          level_1 = is_high (cc1_out (mode_of byte));
          level_2 = is_high (cc2_out (mode_of byte));
          duty = pwm_scale_duty_cycle (abs8 byte);
        })
        (turning byte)
turning_of byte = λ i. record {
  level_1 = (level_of byte).0 i;
  level_2 = (level_of byte).1 i;
  duty = pwm_scale_duty_cycle (abs8 byte);
}

-- Both motors set to the modes `a` and `b`, and then to the percentages `x` and `y`.
two_motors :
    (a b : Mode) (x y : ℕ) (m : Motors)
    → IsDriver m
    → x ≤ 100
    → y ≤ 100
    → (m' : Motors) × ((tb6612fng_set_pwm Motor.left x
            (tb6612fng_set_mode Motor.right b (tb6612fng_set_mode Motor.left a m))
          >>= λ m3. tb6612fng_set_pwm Motor.right y m3)
        ≡ some m')
      × IsDriver m'
      × (output Motor.left m' ≡ record {
        level_1 = is_high (cc1_out a);
        level_2 = is_high (cc2_out a);
        duty = pwm_scale_duty_cycle x;
      })
      × (output Motor.right m' ≡ record {
        level_1 = is_high (cc1_out b);
        level_2 = is_high (cc2_out b);
        duty = pwm_scale_duty_cycle y;
      })
two_motors a b x y m h hx hy =
    let (v1, l1, r1) = tb6612fng_set_mode_lem Motor.left a m h in
    let (v2, r2, l2) =
      tb6612fng_set_mode_lem Motor.right b (tb6612fng_set_mode Motor.left a m) v1 in
    let (m3, e3, v3, l3, r3) = tb6612fng_set_pwm_lem Motor.left x _ v2 hx in
    let (m4, e4, v4, r4, l4) = tb6612fng_set_pwm_lem Motor.right y m3 v3 hy in
    (
      m4,
      rw e3 e4,
      v4,
      l4 ∙ l3 ∙ ap (λ (o : Output). record o { duty = pwm_scale_duty_cycle x }) (l2 ∙ l1),
      r4 ∙ ap (λ (o : Output). record o { duty = pwm_scale_duty_cycle y }) (r3 ∙ r2),
    )

-- On well-formed hardware `drive_set` fails no assertion, for any direction and speed. Each motor's control
-- pins then show the sign of its speed in the table, and its duty cycle is the scaled absolute value.
pub drive_set_lem :
    (d : DriveDir) (s : DriveSpeed) (m : Motors)
    → IsDriver m
    → (m' : Motors) × (drive_set d s m ≡ some m')
      × IsDriver m'
      × (output Motor.left m' ≡ turning (drive_speeds d s).left)
      × (output Motor.right m' ≡ turning (drive_speeds d s).right)
unfolding drive_set
drive_set_lem d s m h =
    let (nonzero, hl, hr) = drive_speeds_in_range d s in
    let (m', e, v, l, r) =
      two_motors (mode_of (drive_speeds d s).left) (mode_of (drive_speeds d s).right)
        (abs8 (drive_speeds d s).left) (abs8 (drive_speeds d s).right) m h hl hr in
    (
      m',
      rw nonzero e,
      v,
      l ∙ turning_of (drive_speeds d s).left,
      r ∙ turning_of (drive_speeds d s).right,
    )

-- On well-formed hardware `drive_stop` fails no assertion, and leaves both motors with low control
-- pins and a duty cycle of 0.
pub drive_stop_lem :
    (m : Motors)
    → IsDriver m
    → (m' : Motors) × (drive_stop m ≡ some m')
      × IsDriver m'
      × (output Motor.left m' ≡ stopped)
      × (output Motor.right m' ≡ stopped)
unfolding drive_stop pwm_scale_duty_cycle
drive_stop_lem m h = two_motors Mode.stop Mode.stop 0 0 m h (omega arith) (omega arith)

-- The direction that mirrors `d`: left for right. Forward and reverse are their own mirror.
abbrev pub mirror_dir : DriveDir → DriveDir
mirror_dir DriveDir.rotate_left = DriveDir.rotate_right
mirror_dir DriveDir.rotate_right = DriveDir.rotate_left
mirror_dir DriveDir.arcturn_sharp_left = DriveDir.arcturn_sharp_right
mirror_dir DriveDir.arcturn_sharp_right = DriveDir.arcturn_sharp_left
mirror_dir DriveDir.arcturn_mid_left = DriveDir.arcturn_mid_right
mirror_dir DriveDir.arcturn_mid_right = DriveDir.arcturn_mid_left
mirror_dir DriveDir.arcturn_wide_left = DriveDir.arcturn_wide_right
mirror_dir DriveDir.arcturn_wide_right = DriveDir.arcturn_wide_left
mirror_dir d = d

-- The mirrored direction exchanges the two motors' speeds. Forward turns both forward, and reverse turns both
-- backward, each at the same absolute speed.
pub drive_speeds_lem :
    (d : DriveDir) (s : DriveSpeed)
    → (drive_speeds (mirror_dir d) s
        ≡ record { left = (drive_speeds d s).right; right = (drive_speeds d s).left })
      × (is_positive (drive_speeds DriveDir.forward s).left ≡ true)
      × (is_positive (drive_speeds DriveDir.reverse s).left ≡ false)
      × (abs8 (drive_speeds DriveDir.reverse s).left ≡ abs8 (drive_speeds DriveDir.forward s).left)
unfolding drive_speeds
drive_speeds_lem DriveDir.forward s = ground arith
drive_speeds_lem _ s = ground arith

-- In a rotation or arc turn to the left, at any speed, the right motor turns forward, and the left
-- one turns backward or is the slower one.
pub drive_turns_left :
    (d : DriveDir) (s : DriveSpeed)
    → (d ≡ DriveDir.rotate_left)
      ⊎ (d ≡ DriveDir.arcturn_sharp_left)
      ⊎ (d ≡ DriveDir.arcturn_mid_left)
      ⊎ (d ≡ DriveDir.arcturn_wide_left)
    → (is_positive (drive_speeds d s).right ≡ true)
      × ((is_positive (drive_speeds d s).left ≡ false)
          ⊎ ((drive_speeds d s).left < (drive_speeds d s).right))
unfolding drive_speeds
drive_turns_left d s h = ground arith
