-- ===== src/Drivers/Io/Interrupts/Configured.antt =====
-- What `io_configure_interrupt` leaves for a pin.
use nsumo_video.Prelude.{
  ◌==◌, if◌then◌else◌, length, get_or, set, get_or-set_self, get_or-set_ne, ℕ, ◌<◌, ◌≡◌, refl, sym,
  ap, subst, ◌∙◌, Bool, true, false, not, ◌&&◌, Option, none, some, List, [], arith,
}
use nsumo_video.Drivers.Io.{io_port, io_pin_idx, reg_clear, reg_test}
use nsumo_video.Drivers.Io.Bytes.{io_port_lem, test-set_at, test-clear_at}
use nsumo_video.Drivers.Io.Interrupts.{
  Trigger, Interrupts, io_clear_interrupt, io_disable_interrupt, select_edge,
  io_set_interrupt_trigger, isr_function, set_isr_function, io_register_isr, io_configure_interrupt,
}
use nsumo_video.Drivers.Io.Interrupts.Raised.{IsInterruptPorts}

abbrev pub is_falling : Trigger → Bool
is_falling Trigger.rising = false
is_falling Trigger.falling = true

module _ {F : Type 0} where
  -- Two rows of eight functions.
  pub record HasRows (functions : List (List (Option F))) : Type 0 where
    pub rows : length functions ≡ 2
    pub pins : (p : ℕ) → p < 2 → length (get_or functions p []) ≡ 8

  -- Two bytes in each register, and two rows of eight functions.
  pub record IsValid (i : Interrupts F) : Type 0 where
    pub flag_ports : IsInterruptPorts i.flag
    pub enable_ports : IsInterruptPorts i.enable
    pub edge_ports : IsInterruptPorts i.edge
    pub functions : HasRows i.isr_functions

  -- A function that is stored is found at its pin, and at no other.
  isr_function-set_isr_function :
      (io jo : ℕ) (isr : Option F) (i : Interrupts F)
      → io < 16
      → jo < 16
      → HasRows i.isr_functions
      → isr_function jo (set_isr_function io isr i) ≡ (if io == jo then isr else isr_function jo i)
  unfolding isr_function set_isr_function
  isr_function-set_isr_function io jo isr i k l h = ground (
    arith,
    io_port_lem io (omega arith),
    io_port_lem jo (omega arith),
    h.rows,
    h.pins (io_port io),
    get_or-set_self i.isr_functions (io_port io)
        (set (get_or i.isr_functions (io_port io) []) (io_pin_idx io) isr) [],
    get_or-set_ne i.isr_functions (io_port io) (io_port jo)
        (set (get_or i.isr_functions (io_port io) []) (io_pin_idx io) isr) [],
    get_or-set_self (get_or i.isr_functions (io_port io) []) (io_pin_idx io) isr none,
    get_or-set_ne (get_or i.isr_functions (io_port io) []) (io_pin_idx io) (io_pin_idx jo) isr none,
  )

  pub isr_function-table :
      (io : ℕ) (i j : Interrupts F)
      → i.isr_functions ≡ j.isr_functions
      → isr_function io i ≡ isr_function io j
  unfolding isr_function
  isr_function-table io i j e = ap (λ fs. get_or (get_or fs (io_port io) []) (io_pin_idx io) none) e

  trigger-edge :
      (io jo : ℕ) (trigger : Trigger) (i : Interrupts F)
      → io < 16
      → jo < 16
      → IsValid i
      → reg_test jo (io_set_interrupt_trigger io trigger i).edge
        ≡ (if io == jo then is_falling trigger else reg_test jo i.edge)
  unfolding io_set_interrupt_trigger io_clear_interrupt select_edge io_disable_interrupt
  trigger-edge io jo Trigger.rising i k l h = ground (
    arith,
    test-clear_at io jo i.edge (omega arith) (omega arith) (omega (arith, h.edge_ports.ports))
        h.edge_ports.bytes,
  )
  trigger-edge io jo Trigger.falling i k l h = ground (
    arith,
    test-set_at io jo i.edge (omega arith) (omega arith) (omega (arith, h.edge_ports.ports))
        h.edge_ports.bytes,
  )

  trigger-rest :
      (io : ℕ) (trigger : Trigger) (i : Interrupts F)
      → ((io_set_interrupt_trigger io trigger i).flag ≡ reg_clear io i.flag)
        × ((io_set_interrupt_trigger io trigger i).enable ≡ reg_clear io i.enable)
        × ((io_set_interrupt_trigger io trigger i).isr_functions ≡ i.isr_functions)
  unfolding io_set_interrupt_trigger io_clear_interrupt select_edge io_disable_interrupt
  trigger-rest io Trigger.rising i = (refl, refl, refl)
  trigger-rest io Trigger.falling i = (refl, refl, refl)

  -- For a pin of ports 1 and 2 that has no function, `io_configure_interrupt` fails no assertion.
  -- It leaves the pin's interrupt disabled, its flag down, its edge select bit as the trigger says
  -- and its function registered; for any other pin, all four are as before.
  pub io_configure_interrupt_lem :
      (io jo : ℕ) (trigger : Trigger) (isr : F) (i : Interrupts F)
      → io < 16
      → jo < 16
      → IsValid i
      → isr_function io i ≡ none
      → (j : Interrupts F) × (io_configure_interrupt io trigger isr i ≡ some j)
        × (reg_test jo j.enable ≡ (not (io == jo) && reg_test jo i.enable))
        × (reg_test jo j.flag ≡ (not (io == jo) && reg_test jo i.flag))
        × (reg_test jo j.edge ≡ (if io == jo then is_falling trigger else reg_test jo i.edge))
        × (isr_function jo j ≡ (if io == jo then some isr else isr_function jo i))
  unfolding io_configure_interrupt io_register_isr
  io_configure_interrupt_lem io jo trigger isr i k l h e =
      let rest = trigger-rest io trigger i in
      let same : isr_function io (io_set_interrupt_trigger io trigger i) ≡ none =
        isr_function-table io (io_set_interrupt_trigger io trigger i) i rest.2 ∙ e in
      (
        set_isr_function io (some isr) (io_set_interrupt_trigger io trigger i),
        ground (arith, same),
        ground (
          arith,
          rest,
          test-clear_at io jo i.enable (omega arith) (omega arith)
              (omega (arith, h.enable_ports.ports)) h.enable_ports.bytes,
        ),
        ground (
          arith,
          rest,
          test-clear_at io jo i.flag (omega arith) (omega arith) (omega (arith, h.flag_ports.ports))
              h.flag_ports.bytes,
        ),
        trigger-edge io jo trigger i k l h,
        isr_function-set_isr_function io jo (some isr) (io_set_interrupt_trigger io trigger i) k l
              (subst HasRows (sym rest.2) h.functions)
            ∙ ap (λ f. if io == jo then some isr else f)
                (isr_function-table jo (io_set_interrupt_trigger io trigger i) i rest.2),
      )

  pub io_configure_interrupt_free :
      (io : ℕ) (trigger : Trigger) (isr : F) (i : Interrupts F)
      → isr_function io i ≡ none
      → (j : Interrupts F) × (io_configure_interrupt io trigger isr i ≡ some j)
  unfolding io_configure_interrupt io_register_isr
  io_configure_interrupt_free io trigger isr i e =
      let same : isr_function io (io_set_interrupt_trigger io trigger i) ≡ none =
        isr_function-table io (io_set_interrupt_trigger io trigger i) i
          (trigger-rest io trigger i).2
        ∙ e in
      (set_isr_function io (some isr) (io_set_interrupt_trigger io trigger i), ground (arith, same))

  -- A pin that has a function is refused: `io_configure_interrupt` fails the assertion.
  pub io_configure_interrupt_taken :
      (io : ℕ) (trigger : Trigger) (isr old : F) (i : Interrupts F)
      → isr_function io i ≡ some old
      → io_configure_interrupt io trigger isr i ≡ none
  unfolding io_configure_interrupt io_register_isr
  io_configure_interrupt_taken io trigger isr old i e = ground (
    arith,
    isr_function-table io (io_set_interrupt_trigger io trigger i) i (trigger-rest io trigger i).2,
  )
