-- ===== src/Drivers/Io/Bytes.antt =====
-- A bit of a register list of src/drivers/io.c, by the pin.
use nsumo_video.Prelude.{
  ◌==◌, Bool-cases, length, get_or, set, length-set, get_or-set_self, get_or-set_ne, every_below,
  row_below, ℕ, ◌/◌, ◌%◌, ◌<◌, ◌≡◌, refl, ◌∙◌, inl, inr, true, not, ◌&&◌, ◌||◌, List, arith,
}
use nsumo_video.Drivers.Bits.{
  set_bit, clear_bit, test_bit-set_bit, test_bit-clear_bit, set_bit-lt, clear_bit-lt,
}
use nsumo_video.Drivers.Io.{io_port, io_pin_idx, reg_set, reg_clear, reg_test}

-- One byte for each of three ports.
pub record IsPorts (regs : List ℕ) : Type 0 where
  pub ports : length regs ≡ 3
  pub bytes : (p : ℕ) → get_or regs p 0 < 256

io_port_table : every_below 24 (λ io. (io_port io == io / 8) && (io_pin_idx io == io % 8)) ≡ true
unfolding every_below io_port io_pin_idx
io_port_table = refl

-- The enumerator's value is `8 * port + pin`.
pub io_port_lem : (io : ℕ) → io < 24 → (io_port io ≡ io / 8) × (io_pin_idx io ≡ io % 8)
io_port_lem io h = ground (
  arith,
  row_below 24 (λ io. (io_port io == io / 8) && (io_pin_idx io == io % 8)) io io_port_table h,
)

pub clear-bytes_at :
    (io : ℕ) (regs : List ℕ)
    → io < 24
    → io / 8 < length regs
    → ((p : ℕ) → get_or regs p 0 < 256)
    → (q : ℕ) → get_or (reg_clear io regs) q 0 < 256
unfolding reg_clear
clear-bytes_at io regs k n h q = ground (
  arith,
  io_port_lem io k,
  h (io_port io),
  h q,
  get_or-set_self regs (io_port io) (clear_bit (get_or regs (io_port io) 0) (io_pin_idx io)) 0,
  get_or-set_ne regs (io_port io) q (clear_bit (get_or regs (io_port io) 0) (io_pin_idx io)) 0,
  clear_bit-lt (get_or regs (io_port io) 0) (io_pin_idx io),
)

pub set-bytes_at :
    (io : ℕ) (regs : List ℕ)
    → io < 24
    → io / 8 < length regs
    → ((p : ℕ) → get_or regs p 0 < 256)
    → (q : ℕ) → get_or (reg_set io regs) q 0 < 256
unfolding reg_set
set-bytes_at io regs k n h q = ground (
  arith,
  io_port_lem io k,
  h (io_port io),
  h q,
  get_or-set_self regs (io_port io) (set_bit (get_or regs (io_port io) 0) (io_pin_idx io)) 0,
  get_or-set_ne regs (io_port io) q (set_bit (get_or regs (io_port io) 0) (io_pin_idx io)) 0,
  set_bit-lt (get_or regs (io_port io) 0) (io_pin_idx io),
)

set-IsPorts : (regs : List ℕ) (p v : ℕ) → IsPorts regs → p < 3 → v < 256 → IsPorts (set regs p v)
set-IsPorts regs p v h k l = record {
  ports = length-set regs p v ∙ h.ports;
  bytes = λ q. elim (Bool-cases (p == q)) [
    | inl e ↦ ground (arith, get_or-set_self regs p v 0, h.ports)
    | inr e ↦ ground (arith, get_or-set_ne regs p q v 0, h.bytes q)
  ];
}

pub reg_set-IsPorts : (io : ℕ) (regs : List ℕ) → io < 24 → IsPorts regs → IsPorts (reg_set io regs)
unfolding reg_set
reg_set-IsPorts io regs k h =
    set-IsPorts regs (io_port io) _ h (omega (arith, io_port_lem io k))
      (set_bit-lt _ _ (h.bytes (io_port io)) (omega (arith, io_port_lem io k)))

pub reg_clear-IsPorts :
    (io : ℕ) (regs : List ℕ) → io < 24 → IsPorts regs → IsPorts (reg_clear io regs)
unfolding reg_clear
reg_clear-IsPorts io regs k h =
    set-IsPorts regs (io_port io) _ h (omega (arith, io_port_lem io k))
      (clear_bit-lt _ _ (h.bytes (io_port io)) (omega (arith, io_port_lem io k)))

-- The reads after a write, for any number of ports.
pub test-set_at :
    (io jo : ℕ) (regs : List ℕ)
    → io < 24
    → jo < 24
    → io / 8 < length regs
    → ((p : ℕ) → get_or regs p 0 < 256)
    → reg_test jo (reg_set io regs) ≡ (io == jo || reg_test jo regs)
unfolding reg_set reg_test
test-set_at io jo regs k l n h = ground (
  arith,
  io_port_lem io k,
  io_port_lem jo l,
  h (io_port io),
  get_or-set_self regs (io_port io) (set_bit (get_or regs (io_port io) 0) (io_pin_idx io)) 0,
  get_or-set_ne regs (io_port io) (io_port jo)
      (set_bit (get_or regs (io_port io) 0) (io_pin_idx io)) 0,
  test_bit-set_bit (get_or regs (io_port io) 0) (io_pin_idx io) (io_pin_idx jo),
)

pub test-clear_at :
    (io jo : ℕ) (regs : List ℕ)
    → io < 24
    → jo < 24
    → io / 8 < length regs
    → ((p : ℕ) → get_or regs p 0 < 256)
    → reg_test jo (reg_clear io regs) ≡ (not (io == jo) && reg_test jo regs)
unfolding reg_clear reg_test
test-clear_at io jo regs k l n h = ground (
  arith,
  io_port_lem io k,
  io_port_lem jo l,
  h (io_port io),
  get_or-set_self regs (io_port io) (clear_bit (get_or regs (io_port io) 0) (io_pin_idx io)) 0,
  get_or-set_ne regs (io_port io) (io_port jo)
      (clear_bit (get_or regs (io_port io) 0) (io_pin_idx io)) 0,
  test_bit-clear_bit (get_or regs (io_port io) 0) (io_pin_idx io) (io_pin_idx jo),
)

pub reg_test-reg_set :
    (io jo : ℕ) (regs : List ℕ)
    → io < 24
    → jo < 24
    → IsPorts regs
    → reg_test jo (reg_set io regs) ≡ (io == jo || reg_test jo regs)
reg_test-reg_set io jo regs k l h = test-set_at io jo regs k l (omega (arith, h.ports)) h.bytes

pub reg_test-reg_clear :
    (io jo : ℕ) (regs : List ℕ)
    → io < 24
    → jo < 24
    → IsPorts regs
    → reg_test jo (reg_clear io regs) ≡ (not (io == jo) && reg_test jo regs)
reg_test-reg_clear io jo regs k l h = test-clear_at io jo regs k l (omega (arith, h.ports)) h.bytes
