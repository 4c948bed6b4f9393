-- ===== src/Drivers/I2c/Waits.antt =====
-- When the waits of src/drivers/i2c.c report a timeout.
use nsumo_video.Prelude.{
  ◌==◌, ==_iff, Bool-cases, ℕ, zero, suc, ◌+◌, ◌≤◌, ◌<◌, ↔_trans, ◌≡◌, refl, sym, ap, ◌∙◌, ◌≢◌, ◌↔◌,
  inl, inr, Bool, true, false, arith,
}
use nsumo_video.Drivers.I2c.{
  Result, Signals, wait_set, wait_cleared, wait_result, i2c_wait_tx_byte, i2c_wait_rx_byte,
  i2c_wait_start_condition, i2c_stop_transfer,
}

-- The tests `i` to `i + n - 1` all read `b`.
abbrev pub Reads : (ℕ → Bool) → Bool → ℕ → ℕ → Type 0
Reads flag b i n = (j : ℕ) → i ≤ j → j < i + n → flag j ≡ b

Reads-rest :
    (flag : ℕ → Bool) (b : Bool) (i n : ℕ)
    → flag i ≡ b
    → Reads flag b (i + 1) n
    → Reads flag b i (suc n)
Reads-rest flag b i n h k j l m = elim (Bool-cases (i == j)) [
  | inl e ↦ ap flag (sym ((==_iff i j).0 e)) ∙ h
  | inr e ↦ k j (ground arith) (omega arith)
]

wait_cleared-Reads : (flag : ℕ → Bool) (n i : ℕ) → (wait_cleared flag n i ≡ 0) ↔ Reads flag true i n
unfolding wait_cleared
wait_cleared-Reads flag zero i = (λ e. λ j l m. absurd (omega arith), λ h. refl)
wait_cleared-Reads flag (suc n) i = elim (Bool-cases (flag i)) [
  | inl h ↦ (
    λ e. Reads-rest flag true i n h ((wait_cleared-Reads flag n (i + 1)).0 (sym (rw h refl) ∙ e)),
    λ k. rw h ((wait_cleared-Reads flag n (i + 1)).1 (λ j l m. k j (omega arith) (omega arith))),
  )
  | inr h ↦ (
    λ e. (let q : suc n ≡ 0 = sym (rw h refl) ∙ e in absurd (omega arith)),
    λ k. (let t = k i (omega arith) (omega arith) in cc),
  )
]

-- Behind the other loop 0 retries are left exactly where the last test alone reads true.
wait_set-Reads :
    (flag : ℕ → Bool) (n i k : ℕ)
    → k ≡ i + n
    → (wait_set flag n i ≡ 0) ↔ (Reads flag false i n × (flag k ≡ true))
unfolding wait_set
wait_set-Reads flag zero i k last =
    let here : k ≡ i = omega arith in
    elim (Bool-cases (flag i)) [
      | inl h ↦ (λ e. (λ j l m. absurd (omega arith), ap flag here ∙ h), λ p. rw h refl)
      | inr h ↦ (
        λ e. (let q : 65535 ≡ 0 = sym (rw h refl) ∙ e in absurd (omega arith)),
        λ p. (let q : flag i ≡ true = ap flag (sym here) ∙ p.1 in cc),
      )
    ]
wait_set-Reads flag (suc n) i k last = elim (Bool-cases (flag i)) [
  | inl h ↦ (
    λ e. (let q : suc n ≡ 0 = sym (rw h refl) ∙ e in absurd (omega arith)),
    λ p. (let t = p.0 i (omega arith) (omega arith) in cc),
  )
  | inr h ↦ (
    λ e.
        let r = (wait_set-Reads flag n (i + 1) k (omega arith)).0 (sym (rw h refl) ∙ e) in
        (Reads-rest flag false i n h r.0, r.1),
    λ p. rw h (
        (wait_set-Reads flag n (i + 1) k (omega arith)).1
          (λ j l m. p.0 j (omega arith) (omega arith), p.1)),
  )
]

wait_result-timeout :
    (retries : ℕ) (nack : Bool) (error : Result)
    → error ≢ Result.error_timeout
    → (wait_result retries nack error ≡ Result.error_timeout) ↔ (retries ≡ 0)
unfolding wait_result
wait_result-timeout retries nack error h = ground arith

-- `i2c_wait_start_condition` and `i2c_stop_transfer` report a timeout exactly where the first 65535
-- tests all find the condition pending.
pub wait_condition_timeout :
    (s : Signals)
    → ((i2c_wait_start_condition s ≡ Result.error_timeout) ↔ Reads s.flag true 0 65535)
      × ((i2c_stop_transfer s ≡ Result.error_timeout) ↔ Reads s.flag true 0 65535)
unfolding i2c_wait_start_condition i2c_stop_transfer
wait_condition_timeout s =
    let c = wait_cleared-Reads s.flag 65535 0 in
    let left_over = wait_cleared s.flag 65535 0 in
    (
      ↔_trans (wait_result-timeout left_over s.nack Result.error_start (λ h. cc)) c,
      ↔_trans (wait_result-timeout left_over s.nack Result.error_stop (λ h. cc)) c,
    )

-- `i2c_wait_tx_byte` and `i2c_wait_rx_byte` report a timeout exactly where the flag reads as set
-- first at the last of 65536 tests, and so not where it is never set.
pub wait_byte_timeout :
    (s : Signals)
    → ((i2c_wait_tx_byte s ≡ Result.error_timeout)
        ↔ (Reads s.flag false 0 65535 × (s.flag 65535 ≡ true)))
      × ((i2c_wait_rx_byte s ≡ Result.error_timeout)
          ↔ (Reads s.flag false 0 65535 × (s.flag 65535 ≡ true)))
unfolding i2c_wait_tx_byte i2c_wait_rx_byte
wait_byte_timeout s =
    let c = wait_set-Reads s.flag 65535 0 65535 refl in
    let left_over = wait_set s.flag 65535 0 in
    (
      ↔_trans (wait_result-timeout left_over s.nack Result.error_tx (λ h. cc)) c,
      ↔_trans (wait_result-timeout left_over s.nack Result.error_rx (λ h. cc)) c,
    )
