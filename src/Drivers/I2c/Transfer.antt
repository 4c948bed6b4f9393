-- ===== src/Drivers/I2c/Transfer.antt =====
-- The transfers of src/drivers/i2c.c: what is done to the peripheral, and when it is given up.
pub mod Sent
pub mod Received
use nsumo_video.Prelude.{set, ℕ, zero, suc, ◌+◌, Option, none, some, List, [], ◌∷◌, ◌++◌}
use nsumo_video.Drivers.I2c.{
  Result, Signals, i2c_wait_tx_byte, i2c_wait_rx_byte, i2c_wait_start_condition, i2c_stop_transfer,
}

-- The writes to the registers: UCTR set or cleared in UCB0CTL1, the start and stop conditions, and a
-- byte for UCB0TXBUF.
pub data Act : Type 0 where
  transmitter receiver start stop : Act
  tx_byte : ℕ → Act

-- What was done so far, how many waits there were, and the caller's buffer for what is read.
pub record Bus : Type 0 where
  pub acts : List Act
  pub waits : ℕ
  pub buffer : List ℕ

-- What the peripheral shows: during the wait after `n` others, and in UCB0RXBUF behind `n` waits.
pub record Peripheral : Type 0 where
  pub signals : ℕ → Signals
  pub rx_byte : ℕ → ℕ

abbrev pub act : Act → Bus → Bus
act a b = record b { acts = b.acts ++ a ∷ [] }

abbrev pub wait : (Signals → Result) → Peripheral → Bus → Result × Bus
wait f p b = (f (p.signals b.waits), record b { waits = b.waits + 1 })

-- `if (result) { return result; }`
abbrev pub unless_error : Result × Bus → (Bus → Result × Bus) → Result × Bus
unless_error (Result.ok, b) k = k b
unless_error (e, b) k = (e, b)

-- The loops over the bytes to send.
unfoldable pub send_bytes : Peripheral → List ℕ → Bus → Result × Bus
send_bytes p [] b = (Result.ok, b)
send_bytes p (x ∷ xs) b =
    unless_error (wait i2c_wait_tx_byte p (act (tx_byte x) b)) (send_bytes p xs)

-- `i2c_send_addr` for the address bytes `x` and `xs`. `i2c_start_tx_transfer` is the same.
unfoldable pub i2c_send_addr : Peripheral → ℕ → List ℕ → Bus → Result × Bus
unfolding send_bytes
i2c_send_addr p x xs b =
    unless_error
      (wait i2c_wait_start_condition p (act (tx_byte x) (act Act.start (act Act.transmitter b))))
      (λ b1. unless_error (wait i2c_wait_tx_byte p b1) (send_bytes p xs))

-- `i2c_start_rx_transfer`
unfoldable pub i2c_start_rx_transfer : Peripheral → ℕ → List ℕ → Bus → Result × Bus
unfolding i2c_send_addr
i2c_start_rx_transfer p x xs b =
    unless_error (i2c_send_addr p x xs b)
      (λ b1. wait i2c_wait_start_condition p (act Act.start (act Act.receiver b1)))

-- `i2c_write`: `none` where one of the sizes is 0, which an assertion refuses.
unfoldable pub i2c_write : Peripheral → List ℕ → List ℕ → Bus → Option (Result × Bus)
unfolding i2c_send_addr
i2c_write p [] data' b = none
i2c_write p (x ∷ xs) [] b = none
i2c_write p (x ∷ xs) (d ∷ ds) b = some (
    unless_error (i2c_send_addr p x xs b) (λ b1.
      unless_error (send_bytes p (d ∷ ds) b1) (λ b2. wait i2c_stop_transfer p (act Act.stop b2))))

-- A wait for a byte, which is then stored at index `i` of the buffer.
unfoldable pub receive_at : Peripheral → ℕ → Bus → Result × Bus
receive_at p i b =
    unless_error (wait i2c_wait_rx_byte p b)
      (λ b1. (Result.ok, record b1 { buffer = set b1.buffer i (p.rx_byte b1.waits) }))

-- The loop of `i2c_read` from index `i` down to 1.
unfoldable pub receive_down : Peripheral → ℕ → Bus → Result × Bus
unfolding receive_at
receive_down p zero b = (Result.ok, b)
receive_down p (suc i) b = unless_error (receive_at p (suc i) b) (receive_down p i)

-- `i2c_read`, into a buffer of `data_size` bytes: `none` where one of the sizes is 0, which an
-- assertion refuses.
unfoldable pub i2c_read : Peripheral → List ℕ → ℕ → Bus → Option (Result × Bus)
unfolding i2c_start_rx_transfer receive_down
i2c_read p [] data_size b = none
i2c_read p (x ∷ xs) zero b = none
i2c_read p (x ∷ xs) (suc n) b = some (
    unless_error (i2c_start_rx_transfer p x xs b) (λ b1.
      unless_error (receive_down p n b1)
        (λ b2. unless_error (wait i2c_stop_transfer p (act Act.stop b2)) (receive_at p 0))))

unfoldable pub i2c_read_addr8_data8 : Peripheral → ℕ → Bus → Option (Result × Bus)
unfolding i2c_read
i2c_read_addr8_data8 p addr b = i2c_read p (addr ∷ []) 1 b

unfoldable pub i2c_read_addr8_data16 : Peripheral → ℕ → Bus → Option (Result × Bus)
unfolding i2c_read
i2c_read_addr8_data16 p addr b = i2c_read p (addr ∷ []) 2 b

unfoldable pub i2c_read_addr8_data32 : Peripheral → ℕ → Bus → Option (Result × Bus)
unfolding i2c_read
i2c_read_addr8_data32 p addr b = i2c_read p (addr ∷ []) 4 b

unfoldable pub i2c_write_addr8_data8 : Peripheral → ℕ → ℕ → Bus → Option (Result × Bus)
unfolding i2c_write
i2c_write_addr8_data8 p addr data' b = i2c_write p (addr ∷ []) (data' ∷ []) b
