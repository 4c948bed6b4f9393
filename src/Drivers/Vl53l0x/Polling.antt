-- ===== src/Drivers/Vl53l0x/Polling.antt =====
-- The polling loops of src/drivers/vl53l0x.c: which read ends them.
use nsumo_video.Prelude.{
  ==_iff, bit_and, ◌&&◌, Bool-cases, every_below, row_below, ◌==◌, get_or, ℕ, zero, suc, ◌+◌, ◌%◌,
  ◌≤◌, ◌<◌, ◌≡◌, refl, sym, ap, subst, ◌∙◌, inl, inr, Bool, true, false, not, some, [], ◌∷◌, arith,
}
use nsumo_video.Drivers.Bits.{iff_test, iff_test_sound, &&-true}
use nsumo_video.Drivers.I2c.{Result}
use nsumo_video.Drivers.Vl53l0x.{
  I2cDriver, Sensors, returns, Proc, then_run, transferred, read_end, read_bytes, read8, poll_step,
  poll,
}
use nsumo_video.Drivers.Vl53l0x.Spads.{wait_strobe}
use nsumo_video.Drivers.Vl53l0x.Setup.{measurement_ready, wait_calibrated}
use nsumo_video.Drivers.Vl53l0x.Ranging.{wait_started, vl53l0x_pollwait_sysrange}

-- The four loops: of `vl53l0x_read_strobe`, `vl53l0x_perform_single_ref_calibration`,
-- `vl53l0x_start_sysrange` and `vl53l0x_pollwait_sysrange`.
pub data Loop : Type 0 where
  strobe calibrated started measured : Loop

abbrev pub loop_of : {S : Type 0} → I2cDriver S → ℕ → Loop → Proc S
loop_of i2c polls Loop.strobe = wait_strobe i2c polls
loop_of i2c polls Loop.calibrated = wait_calibrated i2c polls
loop_of i2c polls Loop.started = wait_started i2c polls
loop_of i2c polls Loop.measured = vl53l0x_pollwait_sysrange i2c polls

-- The register that each loop waits for: the strobe, RESULT_INTERRUPT_STATUS or SYSRANGE_START.
abbrev pub register : Loop → ℕ
register Loop.strobe = 0x83
register Loop.calibrated = 0x13
register Loop.started = 0x00
register Loop.measured = 0x13

-- The byte that it waits for: not 0, one of the lowest three bits set, or the lowest bit clear.
abbrev pub awaited : Loop → ℕ → Bool
awaited Loop.strobe v = not (v == 0)
awaited Loop.calibrated v = not (v % 8 == 0)
awaited Loop.started v = v % 2 == 0
awaited Loop.measured v = not (v % 8 == 0)

-- What the device answers to read after read of a register, from a state on: the result and the byte of
-- each read, and the state behind it.
pub record Answers {S : Type 0} (i2c : I2cDriver S) (addr : ℕ) (l : S) : Type 0 where
  pub state : ℕ → S
  pub result : ℕ → Result
  pub value : ℕ → ℕ
  pub first : state 0 ≡ l
  pub reads :
      (k : ℕ) → i2c.read addr (0 ∷ []) (state k) ≡ some (result k, value k ∷ [], state (suc k))
  pub bytes : (k : ℕ) → value k < 256

-- A read that fails, or a byte that is waited for.
abbrev pub stops : Result → Bool → Bool
stops Result.ok b = b
stops _ b = true

module _ {S : Type 0} (i2c : I2cDriver S) where
  turn-stops :
      (e : Result) (b : Bool) (s : Sensors S) (again : Proc S)
      → stops e b ≡ true
      → then_run (returns (transferred e, s)) (poll_step i2c b again) ≡ returns (transferred e, s)
  turn-stops Result.ok true s again h = refl
  turn-stops Result.ok false s again h = cc
  turn-stops Result.error_start b s again h = refl
  turn-stops Result.error_tx b s again h = refl
  turn-stops Result.error_rx b s again h = refl
  turn-stops Result.error_stop b s again h = refl
  turn-stops Result.error_timeout b s again h = refl

  turn_again :
      (e : Result) (b : Bool) (s : Sensors S) (again : Proc S)
      → stops e b ≡ false
      → then_run (returns (transferred e, s)) (poll_step i2c b again) ≡ again s
  turn_again Result.ok true s again h = cc
  turn_again Result.ok false s again h = refl
  turn_again Result.error_start b s again h = cc
  turn_again Result.error_tx b s again h = cc
  turn_again Result.error_rx b s again h = cc
  turn_again Result.error_stop b s again h = cc
  turn_again Result.error_timeout b s again h = cc

module _ {S : Type 0} (i2c : I2cDriver S) (addr : ℕ) (ready await : ℕ → Bool) {l : S}
    (a : Answers i2c addr l) (agree : (v : ℕ) → v < 256 → ready v ≡ await v) where
  poll-suc :
      (fuel i : ℕ) (s : Sensors S)
      → s.link ≡ a.state i
      → poll i2c (suc fuel) addr ready s
        ≡ then_run
            (returns (transferred (a.result i), record s { link = a.state (suc i) }))
            (poll_step i2c (await (a.value i)) (poll i2c fuel addr ready))
  unfolding poll read8 read_bytes
  poll-suc fuel i s h =
      ap (read_end i2c (λ b. poll_step i2c (ready (get_or b 0 0)) (poll i2c fuel addr ready)) s)
        (ap (i2c.read addr (0 ∷ [])) h ∙ a.reads i)
      ∙ ap
          (λ b.
            then_run (returns (transferred (a.result i), record s { link = a.state (suc i) }))
              (poll_step i2c b (poll i2c fuel addr ready)))
          (agree (a.value i) (a.bytes i))

  -- A loop from its read `i` on ends with the first read from there that ends it, not behind `n`.
  abbrev EndsBy : (i n fuel : ℕ) → Sensors S → Type 0
  EndsBy i n fuel s =
      (k : ℕ) × (k ≤ n)
      × (stops (a.result k) (await (a.value k)) ≡ true)
      × ((j : ℕ) → i ≤ j → j < k → stops (a.result j) (await (a.value j)) ≡ false)
      × (poll i2c fuel addr ready s
          ≡ returns (transferred (a.result k), record s { link = a.state (suc k) }))

  ends_now :
      (i n fuel : ℕ) (s : Sensors S)
      → i ≤ n
      → s.link ≡ a.state i
      → stops (a.result i) (await (a.value i)) ≡ true
      → EndsBy i n (suc fuel) s
  ends_now i n fuel s e q g = (
    i,
    e,
    g,
    λ j u v. absurd (omega (arith, u, v)),
    poll-suc fuel i s q ∙ turn-stops i2c (a.result i) (await (a.value i)) _ _ g,
  )

  ends_later :
      (i n fuel : ℕ) (s : Sensors S)
      → s.link ≡ a.state i
      → stops (a.result i) (await (a.value i)) ≡ false
      → EndsBy (suc i) n fuel (record s { link = a.state (suc i) })
      → EndsBy i n (suc fuel) s
  ends_later i n fuel s q g (k, e, h, before, p) = (
    k,
    e,
    h,
    λ j u v. elim (Bool-cases (i == j)) [
      | inl w ↦ subst (λ x. stops (a.result x) (await (a.value x)) ≡ false) ((==_iff i j).0 w) g
      | inr w ↦ before j (ground (arith, w, u)) v
    ],
    poll-suc fuel i s q
        ∙ (turn_again i2c (a.result i) (await (a.value i)) _ (poll i2c fuel addr ready) g ∙ p),
  )

  poll-EndsBy :
      (d i n fuel : ℕ) (s : Sensors S)
      → n ≡ i + d
      → d < fuel
      → stops (a.result n) (await (a.value n)) ≡ true
      → s.link ≡ a.state i
      → EndsBy i n fuel s
  poll-EndsBy d i n zero s e h w q = absurd (omega (arith, h))
  poll-EndsBy zero i n (suc fuel) s e h w q =
      ends_now i n fuel s (omega (arith, e)) q
        (subst (λ x. stops (a.result x) (await (a.value x)) ≡ true) (omega (arith, e)) w)
  poll-EndsBy (suc d) i n (suc fuel) s e h w q =
      elim (Bool-cases (stops (a.result i) (await (a.value i)))) [
        | inl g ↦ ends_now i n fuel s (omega (arith, e)) q g
        | inr g ↦ ends_later i n fuel s q g (
            poll-EndsBy d (suc i) n fuel (record s { link = a.state (suc i) }) (omega (arith, e))
              (omega (arith, h)) w refl)
      ]

-- What the loops test of a byte.
abbrev tests_at : ℕ → Bool
tests_at v =
    iff_test (measurement_ready v) (not (v % 8 == 0)) && iff_test (bit_and v 0x01 == 0) (v % 2 == 0)

tests_table : every_below 256 tests_at ≡ true
unfolding every_below measurement_ready
tests_table = refl

tests_lem :
    (v : ℕ)
    → v < 256
    → (measurement_ready v ≡ not (v % 8 == 0)) × ((bit_and v 0x01 == 0) ≡ (v % 2 == 0))
tests_lem v h =
    let (a, b) =
      &&-true (iff_test (measurement_ready v) (not (v % 8 == 0)))
        (iff_test (bit_and v 0x01 == 0) (v % 2 == 0)) (row_below 256 tests_at v tests_table h) in
    (
      iff_test_sound (measurement_ready v) (not (v % 8 == 0)) a,
      iff_test_sound (bit_and v 0x01 == 0) (v % 2 == 0) b,
    )

-- For each of the four polling loops, over a device that answers every read of the loop's register with
-- a byte or an error. What is awaited is a strobe that is not 0, one of the three lowest bits of
-- RESULT_INTERRUPT_STATUS set, or the lowest bit of SYSRANGE_START clear. Where a read `n` fails or shows
-- what is awaited, and more than `n` reads are looked at, the loop ends, and it does with the first such
-- read. A failed read gives VL53L0X_RESULT_ERROR_I2C, and the awaited byte VL53L0X_RESULT_OK; only the
-- state of the device has changed.
pub loop_of-awaited :
    {S : Type 0} (i2c : I2cDriver S) (loop : Loop) (polls n : ℕ) (s : Sensors S)
    (a : Answers i2c (register loop) s.link)
    → n < polls
    → stops (a.result n) (awaited loop (a.value n)) ≡ true
    → (k : ℕ) × (k ≤ n)
      × (stops (a.result k) (awaited loop (a.value k)) ≡ true)
      × ((j : ℕ) → j < k → stops (a.result j) (awaited loop (a.value j)) ≡ false)
      × (loop_of i2c polls loop s
          ≡ returns (transferred (a.result k), record s { link = a.state (suc k) }))
unfolding vl53l0x_pollwait_sysrange
loop_of-awaited {S} i2c loop polls n s a h w =
    let (k, e, g, before, p) = by_loop loop a w in (k, e, g, λ j v. before j (omega arith) v, p)
  where
    by_loop :
        (loop : Loop) (a : Answers i2c (register loop) s.link)
        → stops (a.result n) (awaited loop (a.value n)) ≡ true
        → (k : ℕ) × (k ≤ n)
          × (stops (a.result k) (awaited loop (a.value k)) ≡ true)
          × ((j : ℕ) → 0 ≤ j → j < k → stops (a.result j) (awaited loop (a.value j)) ≡ false)
          × (loop_of i2c polls loop s
              ≡ returns (transferred (a.result k), record s { link = a.state (suc k) }))
    by_loop Loop.strobe a w =
        poll-EndsBy i2c 0x83 (λ v. not (v == 0)) (λ v. not (v == 0)) a (λ v q. refl) n 0 n polls s
          (omega arith) h w (sym a.first)
    by_loop Loop.calibrated a w =
        poll-EndsBy i2c 0x13 measurement_ready (λ v. not (v % 8 == 0)) a (λ v q. (tests_lem v q).0)
          n 0 n polls s (omega arith) h w (sym a.first)
    by_loop Loop.started a w =
        poll-EndsBy i2c 0x00 (λ v. bit_and v 0x01 == 0) (λ v. v % 2 == 0) a
          (λ v q. (tests_lem v q).1) n 0 n polls s (omega arith) h w (sym a.first)
    by_loop Loop.measured a w =
        poll-EndsBy i2c 0x13 measurement_ready (λ v. not (v % 8 == 0)) a (λ v q. (tests_lem v q).0)
          n 0 n polls s (omega arith) h w (sym a.first)
