-- ===== src/Drivers/Vl53l0x/Transfers.antt =====
-- src/drivers/i2c.c as the driver that src/drivers/vl53l0x.c uses.
use nsumo_video.Prelude.{length, ℕ, Option, none, some, List, [], ◌∷◌}
use nsumo_video.Drivers.I2c.{Result}
use nsumo_video.Drivers.I2c.Transfer.{Bus, Peripheral, i2c_write, i2c_read}
use nsumo_video.Drivers.Vl53l0x.{I2cDriver}

-- The peripheral as the driver leaves it, with UCB0I2CSA.
pub record Link : Type 0 where
  pub bus : Bus
  pub slave_address : ℕ

abbrev pub written : ℕ → Option (Result × Bus) → Option (Result × Link)
written slave none = none
written slave (some (e, b)) = some (e, record { bus = b; slave_address = slave })

abbrev pub received : ℕ → Option (Result × Bus) → Option (Result × List ℕ × Link)
received slave none = none
received slave (some (e, b)) = some (e, b.buffer, record { bus = b; slave_address = slave })

-- The transfers to and from a peripheral.
abbrev pub i2c_driver : Peripheral → I2cDriver Link
i2c_driver p = record {
  write = λ addr bytes l. written l.slave_address (i2c_write p (addr ∷ []) bytes l.bus);
  read = λ addr buffer l.
      received l.slave_address
        (i2c_read p (addr ∷ []) (length buffer) (record l.bus { buffer = buffer }));
  i2c_set_slave_address = λ addr l. record l { slave_address = addr };
}
