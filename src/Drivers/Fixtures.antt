-- ===== src/Drivers/Fixtures.antt =====
-- Concrete hardware for the tests: the registers after a reset, with the pin that tells the Nsumo
-- board high, and idle motors.
use nsumo_video.Prelude.{
  true, get_or, ℕ, zero, suc, ◌<◌, ◌≡◌, refl, some, false, List, [], ◌∷◌, arith,
}
use nsumo_video.Drivers.Adc.{Control}
use nsumo_video.Drivers.I2c
use nsumo_video.Drivers.Io.{
  Registers, io_init, io_get_input, reg_set, reg_clear, reg_test, io_port, io_pin_idx,
}
use nsumo_video.Drivers.Bits.{set_bit, clear_bit, test_bit}
use nsumo_video.Drivers.Io.Bytes.{IsPorts}
use nsumo_video.Drivers.Io.Configure
use nsumo_video.Drivers.Io.Interrupts.Raised.{IsInterruptPorts}
use nsumo_video.Drivers.Pwm.{Channel, Pwm}
use nsumo_video.Drivers.Pwm.Enabled
use nsumo_video.Drivers.Tb6612fng.{Motors}
use nsumo_video.Drivers.Tb6612fng.Outputs.{IsDriver}

list-IsPorts : (a b c : ℕ) → a < 256 → b < 256 → c < 256 → IsPorts (a ∷ b ∷ c ∷ [])
list-IsPorts a b c ha hb hc = record { ports = refl; bytes = bytes }
  where
    bytes : (p : ℕ) → get_or (a ∷ b ∷ c ∷ []) p 0 < 256
    bytes zero = ha
    bytes (suc zero) = hb
    bytes (suc (suc zero)) = hc
    bytes (suc (suc (suc p))) = omega arith

abbrev zeros : List ℕ
zeros = 0 ∷ 0 ∷ 0 ∷ []

zeros-IsPorts : IsPorts zeros
zeros-IsPorts = list-IsPorts 0 0 0 (omega arith) (omega arith) (omega arith)

abbrev pub reset_registers : Registers
reset_registers = record {
  dir = zeros;
  ren = zeros;
  out = zeros;
  inp = 0 ∷ 0 ∷ 16 ∷ [];
  sel1 = zeros;
  sel2 = zeros;
}

pub reset_registers-IsValid : Configure.IsValid reset_registers
reset_registers-IsValid = record {
  dir_ports = zeros-IsPorts;
  ren_ports = zeros-IsPorts;
  out_ports = zeros-IsPorts;
  inp_ports = list-IsPorts 0 0 16 (omega arith) (omega arith) (omega arith);
  sel1_ports = zeros-IsPorts;
  sel2_ports = zeros-IsPorts;
}

abbrev idle_channel : Channel
idle_channel = record { enabled = false; outmod_7 = false; ccr = 0 }

abbrev pub idle_pwm : Pwm
idle_pwm = record {
  left = idle_channel;
  right = idle_channel;
  pwm_enabled = false;
  running = false;
  tassel = 0;
  divider = 0;
  ta0ccr0 = 0;
  initialized = false;
}

pub idle_pwm-IsValid : Enabled.IsValid idle_pwm
idle_pwm-IsValid = ground arith

abbrev pub idle_motors : Motors
idle_motors = record { io = reset_registers; pwm = idle_pwm; initialized = false }

pub idle_motors-IsDriver : IsDriver idle_motors
idle_motors-IsDriver = record { io_valid = reset_registers-IsValid; pwm_valid = idle_pwm-IsValid }

abbrev pub booted_registers : Registers
booted_registers = record {
  dir = 198 ∷ 244 ∷ 239 ∷ [];
  ren = 0 ∷ 0 ∷ 0 ∷ [];
  out = 0 ∷ 0 ∷ 0 ∷ [];
  inp = 0 ∷ 0 ∷ 16 ∷ [];
  sel1 = 198 ∷ 0 ∷ 96 ∷ [];
  sel2 = 198 ∷ 0 ∷ 0 ∷ [];
}

pub io_init_reset : io_init reset_registers ≡ some booted_registers
unfolding io_init io_get_input reg_set reg_clear reg_test set_bit clear_bit test_bit io_port
    io_pin_idx
io_init_reset = refl

pub two_bytes : (a b : ℕ) → a < 256 → b < 256 → IsInterruptPorts (a ∷ b ∷ [])
two_bytes a b ha hb = record { ports = refl; bytes = bytes }
  where
    bytes : (p : ℕ) → get_or (a ∷ b ∷ []) p 0 < 256
    bytes zero = ha
    bytes (suc zero) = hb
    bytes (suc (suc p)) = omega arith

-- The converter's registers behind a reset.
abbrev pub reset_adc : Control
reset_adc = record {
  inch = 0;
  adc10div = 0;
  conseq = 0;
  shs = 0;
  adc10ssel = 0;
  adc10on = false;
  sref = 0;
  adc10sht = 0;
  msc = false;
  adc10ie = false;
}

abbrev pub reset_i2c : I2c.Registers
reset_i2c = record {
  ucmst = false;
  ucsync = false;
  ucmode = 0;
  ctl1 = record { ucswrst = true; ucssel = 0; others = 0 };
  br0 = 0;
  br1 = 0;
}
