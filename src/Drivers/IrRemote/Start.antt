-- ===== src/Drivers/IrRemote/Start.antt =====
-- The start of src/drivers/ir_remote.c: the interrupt of the receiver's pin, and timer A1.
use nsumo_video.Prelude.{◌>>=◌, ℕ, ◌*◌, ◌/◌, Bool, true, false, Option, some}
use nsumo_video.Drivers.Io.Pins.{io_ir_remote}
use nsumo_video.Drivers.Io.Interrupts.{
  Trigger, Interrupts, io_enable_interrupt, io_configure_interrupt,
}
use nsumo_video.Drivers.IrRemote.{Ir}
use nsumo_video.Drivers.Vl53l0x.{Isr}

-- SMCLK, of src/common/defines.h
abbrev smclk : ℕ
smclk = 16 * 1000000

-- TICKS_PER_ms: the timer divides its clock by 8.
abbrev ticks_per_ms : ℕ
ticks_per_ms = smclk / 8 / 1000

-- TIMER_INTERRUPT_TICKS
abbrev pub timer_interrupt_ticks : ℕ
timer_interrupt_ticks = ticks_per_ms * 1

-- TA1CCR0, and CCIE in TA1CCTL0.
pub record IrTimer : Type 0 where
  pub ta1ccr0 : ℕ
  pub ccie : Bool

-- The write to TA1CTL selects the clock and the divider, and stops the timer.
unfoldable pub ir_timer_init : Ir × IrTimer → Ir × IrTimer
ir_timer_init (s, t) =
    (record s { running = false }, record { ta1ccr0 = timer_interrupt_ticks; ccie = true })

unfoldable pub ir_remote_init :
    Interrupts Isr → Ir × IrTimer → Option (Interrupts Isr × Ir × IrTimer)
unfolding io_configure_interrupt io_enable_interrupt ir_timer_init
ir_remote_init i st = do
  j ← io_configure_interrupt io_ir_remote Trigger.rising Isr.pulse i
  let u = ir_timer_init st
  some (io_enable_interrupt io_ir_remote j, u.0, u.1)
