-- ===== src/Drivers/I2c.antt =====
-- The waits of src/drivers/i2c.c: loops that test a flag of the peripheral until it changes or the
-- retries are used up.
pub mod Waits
pub mod Transfer
use nsumo_video.Drivers.Usci.{Control, select_smclk}
use nsumo_video.Prelude.{true, false, ◌==◌, if◌then◌else◌, ℕ, zero, suc, ◌+◌, Bool}

-- `i2c_result_e`
pub data Result : Type 0 where
  ok error_start error_tx error_rx error_stop error_timeout : Result

-- What the peripheral shows during one wait: `flag i` is what the test after `i` others reads, and
-- `nack` is UCNACKIFG behind the loop.
pub record Signals : Type 0 where
  pub flag : ℕ → Bool
  pub nack : Bool

-- RETRY_COUNT, which is UINT16_MAX
abbrev pub retry_count : ℕ
retry_count = 65535

-- `while (!flag && retries--) { }`: what `retries` is behind the loop, from `retries` and after
-- `i` tests. Where the decrement meets 0, it leaves the wrapped uint16_t.
unfoldable pub wait_set : (ℕ → Bool) → ℕ → ℕ → ℕ
wait_set flag zero i = if flag i then 0 else 65535
wait_set flag (suc retries) i =
    let rest = wait_set flag retries (i + 1) in if flag i then suc retries else rest

-- `while (flag && --retries) { }`: the same. It is entered with more than 0 retries, and 0 ends it.
unfoldable pub wait_cleared : (ℕ → Bool) → ℕ → ℕ → ℕ
wait_cleared flag zero i = 0
wait_cleared flag (suc retries) i =
    let rest = wait_cleared flag retries (i + 1) in if flag i then rest else suc retries

-- What each wait returns behind its loop.
unfoldable pub wait_result : ℕ → Bool → Result → Result
wait_result retries nack error =
    if retries == 0 then Result.error_timeout else if nack then error else Result.ok

unfoldable pub i2c_wait_tx_byte : Signals → Result
unfolding wait_result
i2c_wait_tx_byte s = wait_result (wait_set s.flag retry_count 0) s.nack Result.error_tx

unfoldable pub i2c_wait_rx_byte : Signals → Result
unfolding wait_result
i2c_wait_rx_byte s = wait_result (wait_set s.flag retry_count 0) s.nack Result.error_rx

unfoldable pub i2c_wait_start_condition : Signals → Result
unfolding wait_result
i2c_wait_start_condition s =
    wait_result (wait_cleared s.flag retry_count 0) s.nack Result.error_start

-- `i2c_stop_transfer`, behind the request of the stop condition.
unfoldable pub i2c_stop_transfer : Signals → Result
unfolding wait_result
i2c_stop_transfer s = wait_result (wait_cleared s.flag retry_count 0) s.nack Result.error_stop

-- UCB0CTL0 by UCMST, UCSYNC and UCMODEx, UCB0CTL1, UCB0BR0 and UCB0BR1.
pub record Registers : Type 0 where
  pub ucmst : Bool
  pub ucsync : Bool
  pub ucmode : ℕ
  pub ctl1 : Control
  pub br0 : ℕ
  pub br1 : ℕ

-- The writes of `i2c_init` between its assertions and the slave address.
unfoldable pub i2c_configure : Registers → Registers
unfolding select_smclk
i2c_configure r =
    let stopped = record r { ctl1 = record r.ctl1 { ucswrst = true } } in
    let single_master = record stopped { ucmst = true; ucsync = true; ucmode = 3 } in
    let clocked = record single_master { ctl1 = select_smclk single_master.ctl1 } in
    let divided = record clocked { br0 = 160; br1 = 0 } in
    record divided { ctl1 = record divided.ctl1 { ucswrst = false } }
