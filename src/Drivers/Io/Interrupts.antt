-- ===== src/Drivers/Io/Interrupts.antt =====
-- The port interrupts of src/drivers/io.c. Ports 1 and 2 can interrupt: the registers PxIFG, PxIE and
-- PxIES are bytes for these two ports, and `isr_functions` is a table of two rows of eight pins. `F`
-- is the type of the function pointers; NULL is `none`.
use nsumo_video.Prelude.{
  if◌then◌else◌, get_or, set, ◌>>◌, assert, ℕ, zero, suc, ◌+◌, Bool, true, false, Option, none,
  some, List, [],
}
use nsumo_video.Drivers.Io.{io_port, io_pin_idx, reg_set, reg_clear, reg_test}
use nsumo_video.Drivers.Io.Pins.{io_10, io_20}
pub mod Raised
pub mod Configured
pub mod Kept

-- `io_trigger_e`
pub data Trigger : Type 0 where
  rising falling : Trigger

pub record Interrupts {ℓ} (F : Type ℓ) : Type ℓ where
  pub flag : List ℕ
  pub enable : List ℕ
  pub edge : List ℕ
  pub isr_functions : List (List (Option F))

module _ {ℓ} {F : Type ℓ} where
  unfoldable pub io_clear_interrupt : ℕ → Interrupts F → Interrupts F
  io_clear_interrupt io i = record i { flag = reg_clear io i.flag }

  unfoldable pub io_enable_interrupt : ℕ → Interrupts F → Interrupts F
  io_enable_interrupt io i = record i { enable = reg_set io i.enable }

  unfoldable pub io_disable_interrupt : ℕ → Interrupts F → Interrupts F
  io_disable_interrupt io i = record i { enable = reg_clear io i.enable }

  -- The switch of `io_set_interrupt_trigger`.
  unfoldable pub select_edge : ℕ → Trigger → Interrupts F → Interrupts F
  select_edge io Trigger.rising i = record i { edge = reg_clear io i.edge }
  select_edge io Trigger.falling i = record i { edge = reg_set io i.edge }

  unfoldable pub io_set_interrupt_trigger : ℕ → Trigger → Interrupts F → Interrupts F
  unfolding io_clear_interrupt select_edge io_disable_interrupt
  io_set_interrupt_trigger io trigger i =
      io_clear_interrupt io (select_edge io trigger (io_disable_interrupt io i))

  -- `isr_functions[port][pin_idx]`
  unfoldable pub isr_function : ℕ → Interrupts F → Option F
  isr_function io i = get_or (get_or i.isr_functions (io_port io) []) (io_pin_idx io) none

  -- `isr_functions[port][pin_idx] = isr`
  unfoldable pub set_isr_function : ℕ → Option F → Interrupts F → Interrupts F
  set_isr_function io isr i = record i {
    isr_functions =
        set i.isr_functions (io_port io)
          (set (get_or i.isr_functions (io_port io) []) (io_pin_idx io) isr);
  }

  abbrev pub is_null : Option F → Bool
  is_null none = true
  is_null (some f) = false

  unfoldable pub io_register_isr : ℕ → F → Interrupts F → Option (Interrupts F)
  unfolding isr_function set_isr_function
  io_register_isr io isr i = do
    assert (is_null (isr_function io i))
    some (set_isr_function io (some isr) i)

  unfoldable pub io_configure_interrupt : ℕ → Trigger → F → Interrupts F → Option (Interrupts F)
  unfolding io_set_interrupt_trigger io_register_isr
  io_configure_interrupt io trigger isr i =
      io_register_isr io isr (io_set_interrupt_trigger io trigger i)

  unfoldable pub io_unregister_isr : ℕ → Interrupts F → Interrupts F
  unfolding set_isr_function
  io_unregister_isr io i = set_isr_function io none i

  unfoldable pub io_deconfigure_interrupt : ℕ → Interrupts F → Interrupts F
  unfolding io_unregister_isr io_disable_interrupt
  io_deconfigure_interrupt io i = io_disable_interrupt io (io_unregister_isr io i)

-- The service of a port, where `call` is what an interrupt function does to the rest of the program.
-- It does not change the interrupt registers or the table.
module _ {ℓ κ} {F : Type ℓ} {S : Type κ} (call : F → S → S) where
  abbrev pub call_isr : Option F → S → S
  call_isr none s = s
  call_isr (some isr) s = call isr s

  unfoldable pub io_isr : ℕ → Interrupts F × S → Interrupts F × S
  unfolding io_clear_interrupt isr_function
  io_isr io (i, s) =
      if reg_test io i.flag
      then (io_clear_interrupt io i, call_isr (isr_function io i) s)
      else (i, s)

  -- The loop over `n` pins from `io`.
  unfoldable pub isr_pins : (n io : ℕ) → Interrupts F × S → Interrupts F × S
  isr_pins zero io w = w
  isr_pins (suc n) io w = isr_pins n (io + 1) (io_isr io w)

  unfoldable pub isr_port_1 : Interrupts F × S → Interrupts F × S
  unfolding isr_pins
  isr_port_1 w = isr_pins 8 io_10 w

  unfoldable pub isr_port_2 : Interrupts F × S → Interrupts F × S
  unfolding isr_pins
  isr_port_2 w = isr_pins 8 io_20 w
