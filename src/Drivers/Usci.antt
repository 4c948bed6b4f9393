-- ===== src/Drivers/Usci.antt =====
-- The first control register of the serial modules, as src/drivers/uart.c and src/drivers/i2c.c write it.
use nsumo_video.Prelude.{ℕ, bit_or, Bool}

-- UCA0CTL1 or UCB0CTL1 by its fields: UCSWRST, UCSSELx and the other bits.
pub record Control : Type 0 where
  pub ucswrst : Bool
  pub ucssel : ℕ
  pub others : ℕ

-- `|= UCSSEL_2`, which is the upper bit of UCSSELx.
unfoldable pub select_smclk : Control → Control
select_smclk c = record c { ucssel = bit_or c.ucssel 2 }
