-- ===== src/Drivers/Tb6612fng/Boot.antt =====
-- The pin configuration that src/drivers/io.c sets up at boot, and the assertions of
-- src/drivers/tb6612fng.c and src/drivers/pwm.c on it.
use mathlib.Core.Path.{subst}
use nsumo_video.Drivers.Io.Pins.{io_34}
use nsumo_video.Prelude.{Bool-cases, get_or, ℕ, ◌<◌, ◌≡◌, subst, inl, inr, true, false, some, arith}
use nsumo_video.Drivers.Io.{
  Config, Registers, io_get_current_config, io_get_input, io_config_compare, input_config,
  io_initial_configs, io_init,
}
use nsumo_video.Drivers.Io.Configure
use nsumo_video.Drivers.Io.Configure.{io_init_none, io_init_lem, io_config_compare_iff}
use nsumo_video.Drivers.Pwm.{Pwm, pwm_ta0ccr0, pwm_init}
use nsumo_video.Drivers.Tb6612fng.{Motors, tb6612fng_assert_io_cfg, tb6612fng_init}

-- What `io_init_lem` gives of the registers.
abbrev pub AtInitial : Registers → Type 0
AtInitial r =
    (io : ℕ) → io < 24 → io_get_current_config io r ≡ get_or io_initial_configs io input_config

compare_at :
    (io : ℕ) (c : Config) (r : Registers)
    → io_get_current_config io r ≡ c
    → io_config_compare (io_get_current_config io r) c ≡ true
compare_at io c r e = (io_config_compare_iff _ c).1 e

tb6612fng_assert_io_cfg-init : (r : Registers) → AtInitial r → tb6612fng_assert_io_cfg r ≡ some tt
unfolding tb6612fng_assert_io_cfg io_initial_configs
tb6612fng_assert_io_cfg-init r h = rw (
  compare_at 13 _ r (h 13 (omega arith)),
  compare_at 12 _ r (h 12 (omega arith)),
  compare_at 23 _ r (h 23 (omega arith)),
  compare_at 15 _ r (h 15 (omega arith)),
)

pwm_init-init :
    (r : Registers) (p : Pwm)
    → AtInitial r
    → p.initialized ≡ false
    → pwm_init r p
      ≡ some (record p {
        running = false;
        tassel = 2;
        divider = 3;
        ta0ccr0 = pwm_ta0ccr0;
        initialized = true;
      })
unfolding pwm_init io_initial_configs
pwm_init-init r p h e =
    rw (e, compare_at 21 _ r (h 21 (omega arith)), compare_at 22 _ r (h 22 (omega arith)))

pub io_init-AtInitial :
    (r r' : Registers) → Configure.IsValid r → io_init r ≡ some r' → AtInitial r'
io_init-AtInitial r r' h e = elim (Bool-cases (io_get_input io_34 r)) [
  | inl up ↦ (λ io k.
      let (s, es, v, at) = io_init_lem r io h up k in
      let p : s ≡ r' = cc in
      subst
        (λ (t : Registers). io_get_current_config io t ≡ get_or io_initial_configs io input_config)
        p at)
  | inr low ↦ cc (io_init_none r h low)
]

pub io_init-IsValid :
    (r r' : Registers) → Configure.IsValid r → io_init r ≡ some r' → Configure.IsValid r'
io_init-IsValid r r' h e = elim (Bool-cases (io_get_input io_34 r)) [
  | inl up ↦
      let (s, es, v, at) = io_init_lem r 0 h up (omega arith) in
      let p : s ≡ r' = cc in subst Configure.IsValid p v
  | inr low ↦ cc (io_init_none r h low)
]

-- On the registers that a successful `io_init` leaves, `tb6612fng_init` (with the `pwm_init` that it
-- calls) passes all its assertions, if neither module was initialized before. It stops the timer, sets
-- the period and marks both modules as initialized.
pub tb6612fng_init-io_init :
    (r : Registers) (r' : Registers) (m : Motors)
    → Configure.IsValid r
    → io_init r ≡ some r'
    → m.io ≡ r'
    → m.initialized ≡ false
    → m.pwm.initialized ≡ false
    → tb6612fng_init m
      ≡ some (record m {
        pwm = record m.pwm {
          running = false;
          tassel = 2;
          divider = 3;
          ta0ccr0 = pwm_ta0ccr0;
          initialized = true;
        };
        initialized = true;
      })
unfolding tb6612fng_init
tb6612fng_init-io_init r r' m h e io mi pi =
    let at : AtInitial m.io = rw io (io_init-AtInitial r r' h e) in
    rw (mi, tb6612fng_assert_io_cfg-init m.io at, pwm_init-init m.io m.pwm at pi)
