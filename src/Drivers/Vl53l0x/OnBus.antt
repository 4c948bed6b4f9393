-- ===== src/Drivers/Vl53l0x/OnBus.antt =====
-- The driver in src/drivers/i2c.c as src/drivers/vl53l0x.c uses it: no assertion of a transfer fails.
use nsumo_video.Prelude.{refl}
use nsumo_video.Drivers.I2c.Transfer.{Peripheral, i2c_write, i2c_read}
use nsumo_video.Drivers.Vl53l0x.Transfers.{i2c_driver}
use nsumo_video.Drivers.Vl53l0x.Safe.{IsTotal}

pub i2c_driver-IsTotal : (p : Peripheral) → IsTotal (i2c_driver p)
unfolding i2c_write i2c_read
i2c_driver-IsTotal p = record {
  write_total = λ addr b bs l. refl;
  read_total = λ addr b bs l. refl;
}
