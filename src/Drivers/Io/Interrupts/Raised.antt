-- ===== src/Drivers/Io/Interrupts/Raised.antt =====
-- Which interrupt functions the service of a port calls.
use nsumo_video.Prelude.{
  ltb, leb, if◌then◌else◌, length, get_or, length-set, ℕ, zero, suc, ◌+◌, ◌≤◌, ◌<◌, ◌≡◌, refl, ap,
  ◌∙◌, Bool, true, false, not, ◌&&◌, Option, none, some, List, [], ◌∷◌, ◌++◌, arith,
}
use nsumo_video.Drivers.Io.{reg_clear, reg_test}
use nsumo_video.Drivers.Io.Bytes.{clear-bytes_at, test-clear_at}
use nsumo_video.Drivers.Io.Interrupts.{
  Interrupts, io_clear_interrupt, isr_function, call_isr, io_isr, isr_pins, isr_port_1, isr_port_2,
}

-- One byte for each of the two ports that can interrupt.
pub record IsInterruptPorts (regs : List ℕ) : Type 0 where
  pub ports : length regs ≡ 2
  pub bytes : (p : ℕ) → get_or regs p 0 < 256

pub reg_clear-IsInterruptPorts :
    (io : ℕ) (regs : List ℕ)
    → io < 16
    → IsInterruptPorts regs
    → IsInterruptPorts (reg_clear io regs)
unfolding reg_clear
reg_clear-IsInterruptPorts io regs k h = record {
  ports = length-set regs _ _ ∙ h.ports;
  bytes = clear-bytes_at io regs (omega arith) (omega (arith, h.ports)) h.bytes;
}

module _ {ℓ} {F : Type ℓ} where
  -- The function registered for a pin whose flag is up.
  raised_at : Bool → Option F → List F
  raised_at true (some isr) = isr ∷ []
  raised_at _ _ = []

  -- The functions of the pins whose flags are up, in the order of the `n` pins from `io`.
  unfoldable pub raised : (n io : ℕ) → Interrupts F → List F
  unfolding raised_at
  raised zero io i = []
  raised (suc n) io i = raised_at (reg_test io i.flag) (isr_function io i) ++ raised n (io + 1) i

module _ {ℓ κ} {F : Type ℓ} {S : Type κ} (call : F → S → S) where
  -- Calls in the order of the list.
  abbrev pub call_all : List F → S → S
  call_all [] s = s
  call_all (isr ∷ isrs) s = call_all isrs (call isr s)

module _ {ℓ} {F : Type ℓ} where
  -- Clearing an earlier pin's flag leaves what is raised from `io` on.
  raised-io_clear_interrupt :
      (n io jo : ℕ) (i : Interrupts F)
      → io + n ≤ 16
      → jo < io
      → IsInterruptPorts i.flag
      → raised n io (io_clear_interrupt jo i) ≡ raised n io i
  unfolding raised raised_at io_clear_interrupt isr_function
  raised-io_clear_interrupt zero io jo i h k l = refl
  raised-io_clear_interrupt (suc n) io jo i h k l = cc (
    ap (λ b. raised_at b (isr_function io i)) same,
    raised-io_clear_interrupt n (io + 1) jo i (omega arith) (omega arith) l,
  )
    where
      same : reg_test io (reg_clear jo i.flag) ≡ reg_test io i.flag
      same = ground (
        arith,
        test-clear_at jo io i.flag (omega arith) (omega arith) (omega (arith, l.ports)) l.bytes,
      )

module _ {ℓ κ} {F : Type ℓ} {S : Type κ} (call : F → S → S) where
  call_all-raised_at :
      (b : Bool) (isr : Option F) (isrs : List F) (s : S)
      → call_all call (raised_at b isr ++ isrs) s
        ≡ call_all call isrs (if b then call_isr call isr s else s)
  unfolding raised_at
  call_all-raised_at true none isrs s = refl
  call_all-raised_at true (some isr) isrs s = refl
  call_all-raised_at false isr isrs s = refl

  isr_pins-calls :
      (n io : ℕ) (i : Interrupts F) (s : S)
      → io + n ≤ 16
      → IsInterruptPorts i.flag
      → (isr_pins call n io (i, s)).1 ≡ call_all call (raised n io i) s
  unfolding isr_pins io_isr raised
  isr_pins-calls zero io i s h l = refl
  isr_pins-calls (suc n) io i s h l = ground (
    arith,
    isr_pins-calls n (io + 1) i s,
    isr_pins-calls n (io + 1) (io_clear_interrupt io i) (call_isr call (isr_function io i) s),
    reg_clear-IsInterruptPorts io i.flag (omega arith) l,
    raised-io_clear_interrupt n (io + 1) io i (omega arith) (omega arith) l,
    call_all-raised_at (reg_test io i.flag) (isr_function io i) (raised n (io + 1) i) s,
  )

  -- The flags afterwards, and what is kept.
  isr_pins-flags :
      (n io jo : ℕ) (w : Interrupts F × S)
      → io + n ≤ 16
      → jo < 16
      → IsInterruptPorts w.0.flag
      → (reg_test jo (isr_pins call n io w).0.flag
          ≡ (not (leb io jo && ltb jo (io + n)) && reg_test jo w.0.flag))
        × ((isr_pins call n io w).0.enable ≡ w.0.enable)
        × ((isr_pins call n io w).0.isr_functions ≡ w.0.isr_functions)
  unfolding isr_pins io_isr io_clear_interrupt
  isr_pins-flags zero io jo w h k l = ground arith
  isr_pins-flags (suc n) io jo w h k l = ground (
    arith,
    isr_pins-flags n (io + 1) jo (io_isr call io w),
    reg_clear-IsInterruptPorts io w.0.flag (omega arith) l,
    test-clear_at io jo w.0.flag (omega arith) (omega arith) (omega (arith, l.ports)) l.bytes,
  )

  -- With bytes in the interrupt registers, the service of port 1 calls the function of every pin of
  -- the port whose flag is up and that has one, each once and in the order of the pins, and no other
  -- function; afterwards no flag of the port is up, while the flags of port 2, the enabled
  -- interrupts and the registered functions are as before.
  pub isr_port_1_lem :
      (jo : ℕ) (i : Interrupts F) (s : S)
      → jo < 16
      → IsInterruptPorts i.flag
      → ((isr_port_1 call (i, s)).1 ≡ call_all call (raised 8 0 i) s)
        × (reg_test jo (isr_port_1 call (i, s)).0.flag ≡ (leb 8 jo && reg_test jo i.flag))
        × ((isr_port_1 call (i, s)).0.enable ≡ i.enable)
        × ((isr_port_1 call (i, s)).0.isr_functions ≡ i.isr_functions)
  unfolding isr_port_1
  isr_port_1_lem jo i s k l = ground (
    arith,
    isr_pins-calls 8 0 i s (omega arith) l,
    isr_pins-flags 8 0 jo (i, s) (omega arith) k l,
  )

  -- The same for port 2, whose service leaves the flags of port 1.
  pub isr_port_2_lem :
      (jo : ℕ) (i : Interrupts F) (s : S)
      → jo < 16
      → IsInterruptPorts i.flag
      → ((isr_port_2 call (i, s)).1 ≡ call_all call (raised 8 8 i) s)
        × (reg_test jo (isr_port_2 call (i, s)).0.flag ≡ (ltb jo 8 && reg_test jo i.flag))
        × ((isr_port_2 call (i, s)).0.enable ≡ i.enable)
        × ((isr_port_2 call (i, s)).0.isr_functions ≡ i.isr_functions)
  unfolding isr_port_2
  isr_port_2_lem jo i s k l = ground (
    arith,
    isr_pins-calls 8 8 i s (omega arith) l,
    isr_pins-flags 8 8 jo (i, s) (omega arith) k l,
  )
