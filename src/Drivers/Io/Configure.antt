-- ===== src/Drivers/Io/Configure.antt =====
-- Configuring a pin, and the configuration of all pins at boot (src/drivers/io.c).
use nsumo_video.Prelude.{
  ltb, leb, ◌==◌, if◌then◌else◌, length, get_or, ℕ, suc, ◌+◌, ◌-◌, ◌≤◌, ◌<◌, ◌≡◌, refl, ap, ◌∙◌,
  ◌↔◌, Bool, true, false, ◌&&◌, none, some, List, [], ◌∷◌, arith,
}
use nsumo_video.Drivers.Io.{
  Select, Resistor, Dir, Out, Config, Registers, io_set_select, io_set_direction, io_set_resistor,
  io_set_out, io_configure, io_get_current_config, io_get_input, io_config_compare, input_config,
  io_initial_configs, configure_from, io_init,
}
use nsumo_video.Drivers.Io.Pins.{io_10, io_34}
use nsumo_video.Drivers.Io.Bytes.{
  IsPorts, reg_set-IsPorts, reg_clear-IsPorts, reg_test-reg_set, reg_test-reg_clear,
}

-- Every register list has a byte for each port.
pub record IsValid (r : Registers) : Type 0 where
  pub dir_ports : IsPorts r.dir
  pub ren_ports : IsPorts r.ren
  pub out_ports : IsPorts r.out
  pub inp_ports : IsPorts r.inp
  pub sel1_ports : IsPorts r.sel1
  pub sel2_ports : IsPorts r.sel2

module _ (io : ℕ) (k : io < 24) {r : Registers} (h : IsValid r) where
  io_set_select-IsValid : (s : Select) → IsValid (io_set_select io s r)
  unfolding io_set_select
  io_set_select-IsValid s = ground (
    arith,
    reg_set-IsPorts io r.sel1 k,
    reg_clear-IsPorts io r.sel1 k,
    reg_set-IsPorts io r.sel2 k,
    reg_clear-IsPorts io r.sel2 k,
  )

  io_set_direction-IsValid : (d : Dir) → IsValid (io_set_direction io d r)
  unfolding io_set_direction
  io_set_direction-IsValid d =
      ground (arith, reg_set-IsPorts io r.dir k, reg_clear-IsPorts io r.dir k)

  io_set_resistor-IsValid : (d : Resistor) → IsValid (io_set_resistor io d r)
  unfolding io_set_resistor
  io_set_resistor-IsValid d =
      ground (arith, reg_set-IsPorts io r.ren k, reg_clear-IsPorts io r.ren k)

  pub io_set_out-IsValid : (o : Out) → IsValid (io_set_out io o r)
  unfolding io_set_out
  io_set_out-IsValid d = ground (arith, reg_set-IsPorts io r.out k, reg_clear-IsPorts io r.out k)

pub io_configure-IsValid :
    (io : ℕ) (c : Config) {r : Registers} → io < 24 → IsValid r → IsValid (io_configure io c r)
unfolding io_configure
io_configure-IsValid io c {r} k h =
    io_set_resistor-IsValid io k
      (io_set_out-IsValid io k
        (io_set_direction-IsValid io k (io_set_select-IsValid io k h c.select) c.dir) c.out)
      c.resistor

-- The pin that is configured reads back as configured, and every other pin reads as before.
pub io_get_current_config-io_configure :
    (io jo : ℕ) (c : Config) (r : Registers)
    → io < 24
    → jo < 24
    → IsValid r
    → io_get_current_config jo (io_configure io c r)
      ≡ (if io == jo then c else io_get_current_config jo r)
unfolding io_get_current_config io_configure
io_get_current_config-io_configure io jo c r k l h = ground (
  arith,
  reg_test-reg_set io jo r.sel1 k l h.sel1_ports,
  reg_test-reg_clear io jo r.sel1 k l h.sel1_ports,
  reg_test-reg_set io jo r.sel2 k l h.sel2_ports,
  reg_test-reg_clear io jo r.sel2 k l h.sel2_ports,
  reg_test-reg_set io jo r.dir k l h.dir_ports,
  reg_test-reg_clear io jo r.dir k l h.dir_ports,
  reg_test-reg_set io jo r.ren k l h.ren_ports,
  reg_test-reg_clear io jo r.ren k l h.ren_ports,
  reg_test-reg_set io jo r.out k l h.out_ports,
  reg_test-reg_clear io jo r.out k l h.out_ports,
)

get_or-past_head :
    (c : Config) (cs : List Config) (d : Config) (io jo : ℕ)
    → io < jo
    → get_or (c ∷ cs) (jo - io) d ≡ get_or cs (jo - (io + 1)) d
get_or-past_head c cs d io jo h = let e : jo - io ≡ suc (jo - (io + 1)) = omega arith in rw e refl

abbrev within : ℕ → ℕ → ℕ → Bool
within lo n i = leb lo i && ltb i (lo + n)

get_or-at_head :
    (c : Config) (cs : List Config) (d : Config) (io jo : ℕ)
    → io ≡ jo
    → get_or (c ∷ cs) (jo - io) d ≡ c
get_or-at_head c cs d io jo h = let e : jo - io ≡ 0 = omega arith in rw e refl

-- One more pin in front of a run of pins.
configured_cons :
    (c : Config) (cs : List Config) (d x : Config) (io jo : ℕ)
    → (if within (io + 1) (length cs) jo
        then get_or cs (jo - (io + 1)) d
        else if io == jo
        then c
        else x)
      ≡ (if within io (length (c ∷ cs)) jo then get_or (c ∷ cs) (jo - io) d else x)
configured_cons c cs d x io jo =
    ground (arith, get_or-past_head c cs d io jo, get_or-at_head c cs d io jo)

configure_from-IsValid :
    (cs : List Config) (io : ℕ) {r : Registers}
    → io + length cs ≤ 24
    → IsValid r
    → IsValid (configure_from io cs r)
unfolding configure_from
configure_from-IsValid [] io k h = h
configure_from-IsValid (c ∷ cs) io k h =
    configure_from-IsValid cs (io + 1) (omega arith) (io_configure-IsValid io c (omega arith) h)

configure_from_lem :
    (cs : List Config) (io jo : ℕ) (d : Config) (r : Registers)
    → io + length cs ≤ 24
    → jo < 24
    → IsValid r
    → io_get_current_config jo (configure_from io cs r)
      ≡ (if within io (length cs) jo then get_or cs (jo - io) d else io_get_current_config jo r)
unfolding configure_from
configure_from_lem [] io jo d r k l h = ground arith
configure_from_lem (c ∷ cs) io jo d r k l h =
    configure_from_lem cs (io + 1) jo d (io_configure io c r) (omega arith) l
      (io_configure-IsValid io c (omega arith) h)
    ∙ (ap
          (λ (y : Config).
            if within (io + 1) (length cs) jo then get_or cs (jo - (io + 1)) d else y)
          (io_get_current_config-io_configure io jo c r (omega arith) l h)
        ∙ configured_cons c cs d (io_get_current_config jo r) io jo)

all_pins :
    (io : ℕ) (x : Config)
    → io < 24
    → (if within 0 (length io_initial_configs) io
        then get_or io_initial_configs (io - 0) input_config
        else x)
      ≡ get_or io_initial_configs io input_config
unfolding io_initial_configs
all_pins io x k =
    let e : io - 0 ≡ io = omega arith in
    let w : within 0 24 io ≡ true = ground arith in rw (e, w) refl

io_init_cases :
    (r : Registers)
    → IsValid r
    → (io_get_input io_34 r ≡ false → io_init r ≡ none)
      × (io_get_input io_34 r ≡ true
          → (r' : Registers) × (io_init r ≡ some r')
            × IsValid r'
            × ((io : ℕ)
                → io < 24
                → io_get_current_config io r' ≡ get_or io_initial_configs io input_config))
unfolding io_init
io_init_cases r h = (
  λ e. rw e refl,
  λ e. (
    configure_from io_10 io_initial_configs (io_configure io_34 input_config r),
    rw e refl,
    configure_from-IsValid io_initial_configs 0 (omega arith) floating,
    λ io k.
        configure_from_lem io_initial_configs 0 io input_config _ (omega arith) k floating
        ∙ all_pins io _ k,
  ),
)
  where
    floating : IsValid (io_configure io_34 input_config r)
    floating = io_configure-IsValid io_34 input_config (omega arith) h

-- Where pin 3.4 reads low, the board is no Nsumo, and `io_init` fails its assertion.
pub io_init_none : (r : Registers) → IsValid r → io_get_input io_34 r ≡ false → io_init r ≡ none
io_init_none r h e = (io_init_cases r h).0 e

-- On well-formed registers with pin 3.4 high, `io_init` fails no assertion and leaves well-formed
-- registers, in which each of the 24 pins reads back as its entry of `io_initial_configs`.
pub io_init_lem :
    (r : Registers) (io : ℕ)
    → IsValid r
    → io_get_input io_34 r ≡ true
    → io < 24
    → (r' : Registers) × (io_init r ≡ some r')
      × IsValid r'
      × (io_get_current_config io r' ≡ get_or io_initial_configs io input_config)
io_init_lem r io h e k = let (r', p, v, at) = (io_init_cases r h).1 e in (r', p, v, at io k)

-- Two configurations compare as equal exactly where they are.
pub io_config_compare_iff : (a b : Config) → (io_config_compare a b ≡ true) ↔ (a ≡ b)
unfolding io_config_compare
io_config_compare_iff a b = (λ h. ground arith, λ h. rw h (ground arith))
