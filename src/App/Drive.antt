-- ===== src/App/Drive.antt =====
-- src/app/drive.c: a direction and a speed as the modes and duty cycles of the two motors.
pub mod Wheels
use nsumo_video.Prelude.{
  ltb, ◌==◌, if◌then◌else◌, get_or, ◌>>=◌, ◌>>◌, assert, ℕ, ◌-◌, ◌%◌, bit_and, Bool, not, ◌&&◌,
  Option, some, List, [], ◌∷◌,
}
use nsumo_video.Drivers.Pwm.{Motor}
use nsumo_video.Drivers.Tb6612fng.{
  Mode, Motors, tb6612fng_set_mode, tb6612fng_set_pwm, tb6612fng_init,
}
use nsumo_video.App.Types.{DriveDir, DriveSpeed}

abbrev pub dir_index : DriveDir → ℕ
dir_index DriveDir.forward = 0
dir_index DriveDir.reverse = 1
dir_index DriveDir.rotate_left = 2
dir_index DriveDir.rotate_right = 3
dir_index DriveDir.arcturn_sharp_left = 4
dir_index DriveDir.arcturn_sharp_right = 5
dir_index DriveDir.arcturn_mid_left = 6
dir_index DriveDir.arcturn_mid_right = 7
dir_index DriveDir.arcturn_wide_left = 8
dir_index DriveDir.arcturn_wide_right = 9

abbrev pub speed_index : DriveSpeed → ℕ
speed_index DriveSpeed.slow = 0
speed_index DriveSpeed.medium = 1
speed_index DriveSpeed.fast = 2
speed_index DriveSpeed.max = 3

-- `-n` in a uint8_t or an int8_t: both are kept as their byte.
abbrev neg8 : ℕ → ℕ
neg8 n = (256 - n) % 256

-- An int8_t above 0.
abbrev pub is_positive : ℕ → Bool
is_positive byte = ltb 0 byte && ltb byte 128

-- ABS of an int8_t, as the uint8_t argument that it becomes.
abbrev pub abs8 : ℕ → ℕ
abs8 byte = if ltb byte 128 then byte else neg8 byte

-- `struct drive_speeds`
pub record DriveSpeeds : Type 0 where
  pub left : ℕ
  pub right : ℕ

abbrev at_speeds : ℕ → ℕ → DriveSpeeds
at_speeds l r = record { left = l; right = r }

-- `drive_primary_speeds`. The rows of the directions that are not primary are filled with zeros.
drive_primary_speeds : List (List DriveSpeeds)
drive_primary_speeds =
    (at_speeds 25 25 ∷ at_speeds 45 45 ∷ at_speeds 55 55 ∷ at_speeds 100 100 ∷ [])
    ∷ []
    ∷ (at_speeds (neg8 25) 25
        ∷ at_speeds (neg8 50) 50
        ∷ at_speeds (neg8 60) 60
        ∷ at_speeds (neg8 100) 100
        ∷ [])
    ∷ []
    ∷ (at_speeds (neg8 10) 25
        ∷ at_speeds (neg8 10) 50
        ∷ at_speeds (neg8 25) 75
        ∷ at_speeds (neg8 20) 100
        ∷ [])
    ∷ []
    ∷ (at_speeds 15 30 ∷ at_speeds 25 50 ∷ at_speeds 35 70 ∷ at_speeds 50 100 ∷ [])
    ∷ []
    ∷ (at_speeds 20 25 ∷ at_speeds 40 50 ∷ at_speeds 60 70 ∷ at_speeds 85 100 ∷ [])
    ∷ []

-- DRIVE_PRIMARY_DIRECTION
abbrev drive_primary_direction : ℕ → ℕ
drive_primary_direction dir = dir - bit_and dir 1

unfoldable pub drive_inverse_speeds : DriveSpeeds → DriveSpeeds
drive_inverse_speeds s =
    if s.left == s.right then at_speeds (neg8 s.left) (neg8 s.right) else at_speeds s.right s.left

-- The speeds that `drive_set` computes before it turns to the motors.
unfoldable pub drive_speeds : DriveDir → DriveSpeed → DriveSpeeds
unfolding drive_primary_speeds drive_inverse_speeds
drive_speeds direction speed =
    let primary = drive_primary_direction (dir_index direction) in
    let speeds =
      get_or (get_or drive_primary_speeds primary []) (speed_index speed) (at_speeds 0 0) in
    if dir_index direction == primary then speeds else drive_inverse_speeds speeds

abbrev pub mode_of : ℕ → Mode
mode_of byte = if is_positive byte then Mode.forward else Mode.reverse

unfoldable pub drive_set : DriveDir → DriveSpeed → Motors → Option Motors
drive_set direction speed m = do
  let s = drive_speeds direction speed
  assert (not (s.left == 0) && not (s.right == 0))
  let m1 = tb6612fng_set_mode Motor.left (mode_of s.left) m
  let m2 = tb6612fng_set_mode Motor.right (mode_of s.right) m1
  m3 ← tb6612fng_set_pwm Motor.left (abs8 s.left) m2
  tb6612fng_set_pwm Motor.right (abs8 s.right) m3

unfoldable pub drive_stop : Motors → Option Motors
drive_stop m = do
  let m1 = tb6612fng_set_mode Motor.left Mode.stop m
  let m2 = tb6612fng_set_mode Motor.right Mode.stop m1
  m3 ← tb6612fng_set_pwm Motor.left 0 m2
  tb6612fng_set_pwm Motor.right 0 m3

-- `drive_init`, with the static variable `initialized` of drive.c, which it tests but never sets.
unfoldable pub drive_init : Bool → Motors → Option (Bool × Motors)
drive_init initialized m = do
  assert (not initialized)
  m' ← tb6612fng_init m
  some (initialized, m')
