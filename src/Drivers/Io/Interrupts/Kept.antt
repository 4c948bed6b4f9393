-- ===== src/Drivers/Io/Interrupts/Kept.antt =====
-- The interrupt registers and the table of src/drivers/io.c stay well formed.
use nsumo_video.Prelude.{
  ◌==◌, if◌then◌else◌, get_or, set, length-set, get_or-set_self, get_or-set_ne, ℕ, ◌<◌, ◌≡◌, refl,
  subst, ◌∙◌, ◌||◌, Option, none, some, List, [], arith,
}
use nsumo_video.Drivers.Io.{io_port, io_pin_idx, reg_set, reg_test}
use nsumo_video.Drivers.Io.Bytes.{io_port_lem, set-bytes_at, test-set_at}
use nsumo_video.Drivers.Io.Interrupts.{
  Trigger, Interrupts, io_clear_interrupt, io_enable_interrupt, io_disable_interrupt, select_edge,
  io_set_interrupt_trigger, isr_function, set_isr_function, io_register_isr, io_configure_interrupt,
}
use nsumo_video.Drivers.Io.Interrupts.Raised.{IsInterruptPorts, reg_clear-IsInterruptPorts}
use nsumo_video.Drivers.Io.Interrupts.Configured.{
  HasRows, IsValid, isr_function-table, io_configure_interrupt_lem,
}

reg_set-IsInterruptPorts :
    (io : ℕ) (regs : List ℕ) → io < 16 → IsInterruptPorts regs → IsInterruptPorts (reg_set io regs)
unfolding reg_set
reg_set-IsInterruptPorts io regs k h = record {
  ports = length-set regs _ _ ∙ h.ports;
  bytes = set-bytes_at io regs (omega arith) (omega (arith, h.ports)) h.bytes;
}

module _ {F : Type 0} where
  set_isr_function-HasRows :
      (io : ℕ) (isr : Option F) (i : Interrupts F)
      → io < 16
      → HasRows i.isr_functions
      → HasRows (set_isr_function io isr i).isr_functions
  unfolding set_isr_function
  set_isr_function-HasRows io isr i k h = record {
    rows = length-set i.isr_functions _ _ ∙ h.rows;
    pins = λ p l. ground (
      arith,
      io_port_lem io (omega arith),
      h.rows,
      h.pins p l,
      h.pins (io_port io),
      length-set (get_or i.isr_functions (io_port io) []) (io_pin_idx io) isr,
      get_or-set_self i.isr_functions (io_port io)
          (set (get_or i.isr_functions (io_port io) []) (io_pin_idx io) isr) [],
      get_or-set_ne i.isr_functions (io_port io) p
          (set (get_or i.isr_functions (io_port io) []) (io_pin_idx io) isr) [],
    );
  }

  trigger-IsValid :
      (io : ℕ) (trigger : Trigger) (i : Interrupts F)
      → io < 16
      → IsValid i
      → IsValid (io_set_interrupt_trigger io trigger i)
  unfolding io_set_interrupt_trigger io_clear_interrupt select_edge io_disable_interrupt
  trigger-IsValid io Trigger.rising i k h = record {
    flag_ports = reg_clear-IsInterruptPorts io i.flag k h.flag_ports;
    enable_ports = reg_clear-IsInterruptPorts io i.enable k h.enable_ports;
    edge_ports = reg_clear-IsInterruptPorts io i.edge k h.edge_ports;
    functions = h.functions;
  }
  trigger-IsValid io Trigger.falling i k h = record {
    flag_ports = reg_clear-IsInterruptPorts io i.flag k h.flag_ports;
    enable_ports = reg_clear-IsInterruptPorts io i.enable k h.enable_ports;
    edge_ports = reg_set-IsInterruptPorts io i.edge k h.edge_ports;
    functions = h.functions;
  }

  -- `io_configure_interrupt` keeps the registers and the table well formed.
  pub io_configure_interrupt-IsValid :
      (io : ℕ) (trigger : Trigger) (isr : F) (i j : Interrupts F)
      → io < 16
      → IsValid i
      → io_configure_interrupt io trigger isr i ≡ some j
      → IsValid j
  unfolding io_configure_interrupt io_register_isr set_isr_function
  io_configure_interrupt-IsValid io trigger isr i j k h e =
      let moved : IsValid (set_isr_function io (some isr) (io_set_interrupt_trigger io trigger i)) =
        record {
          flag_ports = (trigger-IsValid io trigger i k h).flag_ports;
          enable_ports = (trigger-IsValid io trigger i k h).enable_ports;
          edge_ports = (trigger-IsValid io trigger i k h).edge_ports;
          functions =
              set_isr_function-HasRows io (some isr) (io_set_interrupt_trigger io trigger i) k
                (trigger-IsValid io trigger i k h).functions;
        } in
      let same : set_isr_function io (some isr) (io_set_interrupt_trigger io trigger i) ≡ j =
        ground (arith, e) in
      subst IsValid same moved

  pub io_enable_interrupt-IsValid :
      (io : ℕ) (i : Interrupts F) → io < 16 → IsValid i → IsValid (io_enable_interrupt io i)
  unfolding io_enable_interrupt
  io_enable_interrupt-IsValid io i k h = record {
    flag_ports = h.flag_ports;
    enable_ports = reg_set-IsInterruptPorts io i.enable k h.enable_ports;
    edge_ports = h.edge_ports;
    functions = h.functions;
  }

  -- For a pin that has no function, `io_configure_interrupt` and `io_enable_interrupt` fail no assertion
  -- and keep the registers and the table well formed. The pin's interrupt is enabled with its function,
  -- and for any other pin both are as before.
  pub io_enable_interrupt-io_configure_interrupt :
      (io jo : ℕ) (trigger : Trigger) (isr : F) (i : Interrupts F)
      → io < 16
      → jo < 16
      → IsValid i
      → isr_function io i ≡ none
      → (j : Interrupts F) × (io_configure_interrupt io trigger isr i ≡ some j)
        × IsValid (io_enable_interrupt io j)
        × (isr_function jo (io_enable_interrupt io j)
            ≡ (if io == jo then some isr else isr_function jo i))
        × (reg_test jo (io_enable_interrupt io j).enable ≡ (io == jo || reg_test jo i.enable))
  unfolding io_enable_interrupt
  io_enable_interrupt-io_configure_interrupt io jo trigger isr i k l h e =
      let (j, c, en, fl, ed, fn) = io_configure_interrupt_lem io jo trigger isr i k l h e in
      let v = io_configure_interrupt-IsValid io trigger isr i j k h c in
      (
        j,
        c,
        io_enable_interrupt-IsValid io j k v,
        isr_function-table jo (io_enable_interrupt io j) j refl ∙ fn,
        ground (
          arith,
          en,
          test-set_at io jo j.enable (omega arith) (omega arith)
              (omega (arith, v.enable_ports.ports)) v.enable_ports.bytes,
        ),
      )
