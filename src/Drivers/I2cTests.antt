-- ===== src/Drivers/I2cTests.antt =====
-- The theorems about src/drivers/i2c.c at concrete values.
use nsumo_video.Prelude.{◌==◌, get_or, ◌%◌, ◌≡◌, refl, ◌↔◌, Bool, true, false, some, [], ◌∷◌, arith}
use nsumo_video.Drivers.I2c.{
  Result, Signals, wait_set, wait_cleared, i2c_wait_tx_byte, i2c_wait_rx_byte,
  i2c_wait_start_condition, i2c_stop_transfer,
}
use nsumo_video.Drivers.I2c.Waits.{Reads, wait_byte_timeout}
use nsumo_video.Drivers.I2c.Transfer.{Act, tx_byte, Bus, Peripheral, i2c_write, i2c_read}
use nsumo_video.Drivers.I2c.Transfer.Received.{i2c_read-buffer}
use nsumo_video.Drivers.I2c.Transfer.Sent.{Sends, i2c_write-Sends, i2c_read-Sends}

-- A device that does not answer: the flag never changes from 0.
abbrev silent : Signals
silent = record { flag = λ i. false; nack = false }

-- A bus that is held: the flag stays 1.
abbrev held : Signals
held = record { flag = λ i. true; nack = false }

wait_byte_timeout_example :
    ((i2c_wait_tx_byte silent ≡ Result.error_timeout)
      ↔ (Reads silent.flag false 0 65535 × ◌≡◌ {A = Bool} false true))
    × ((i2c_wait_rx_byte silent ≡ Result.error_timeout)
        ↔ (Reads silent.flag false 0 65535 × ◌≡◌ {A = Bool} false true))
wait_byte_timeout_example = wait_byte_timeout silent

abbrev device : Peripheral
device = record { signals = λ n. silent; rx_byte = λ n. n }

abbrev idle_bus : Bus
idle_bus = record { acts = []; waits = 0; buffer = 0 ∷ 0 ∷ [] }

i2c_write-Sends_example :
    (o : Result × Bus) × (i2c_write device (5 ∷ []) (7 ∷ 8 ∷ []) idle_bus ≡ some o)
    × Sends idle_bus
        (Act.transmitter ∷ Act.start ∷ tx_byte 5 ∷ tx_byte 7 ∷ tx_byte 8 ∷ Act.stop ∷ [])
        o
i2c_write-Sends_example = i2c_write-Sends device 5 [] 7 (8 ∷ []) idle_bus

i2c_read-Sends_example :
    (o : Result × Bus) × (i2c_read device (5 ∷ []) 2 idle_bus ≡ some o)
    × Sends idle_bus
        (Act.transmitter ∷ Act.start ∷ tx_byte 5 ∷ Act.receiver ∷ Act.start ∷ Act.stop ∷ [])
        o
i2c_read-Sends_example = i2c_read-Sends device 5 [] 1 idle_bus

-- A device that answers: the bytes are there, and the conditions are over, at the first test.
abbrev answering : Peripheral
answering = record {
  signals = λ n. record { flag = λ i. n % 2 == 1; nack = false };
  rx_byte = λ n. n;
}

abbrev read_bus : Bus
read_bus = record {
  acts = Act.transmitter ∷ Act.start ∷ tx_byte 5 ∷ Act.receiver ∷ Act.start ∷ Act.stop ∷ [];
  waits = 6;
  buffer = 6 ∷ 4 ∷ [];
}

i2c_read_run : i2c_read answering (5 ∷ []) 2 idle_bus ≡ some (Result.ok, read_bus)
unfolding i2c_read i2c_wait_tx_byte i2c_wait_rx_byte i2c_wait_start_condition i2c_stop_transfer
    wait_set wait_cleared
i2c_read_run = refl

i2c_read-buffer_example : get_or read_bus.buffer 1 0 ≡ answering.rx_byte 4
i2c_read-buffer_example =
    i2c_read-buffer answering 5 [] 1 1 idle_bus read_bus (omega arith) refl i2c_read_run
