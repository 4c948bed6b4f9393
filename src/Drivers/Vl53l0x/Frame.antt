-- ===== src/Drivers/Vl53l0x/Frame.antt =====
-- Which parts of the state the functions of src/drivers/vl53l0x.c leave alone.
use nsumo_video.Prelude.{
  get_or, Option-cases, ℕ, zero, suc, ◌≡◌, refl, ◌∙◌, inl, inr, Bool, true, false, List, [], ◌∷◌,
}
use nsumo_video.Drivers.Vl53l0x.Ranging.{write_stop_variable, vl53l0x_start_sysrange}
use nsumo_video.Drivers.Vl53l0x.{
  Idx, RangeResult, value_5, I2cDriver, Sensors, Run, returns, asserts, hangs, Proc, then_run, ◌⨟◌,
  return, transferred, write_bytes, write8, read_bytes, read8, i2c_slave, vl53l0x_write_8regs,
  poll_step, poll,
}

module _ {S : Type 0} where
  -- How a sequence that returns has run.
  pub data Ran (p q : Proc S) (s : Sensors S) (e : RangeResult) (t : Sensors S) : Type 0 where
    first : p s ≡ returns (e, t) → Ran p q s e t
    both :
        (u : Sensors S) → p s ≡ returns (RangeResult.ok, u) → q u ≡ returns (e, t) → Ran p q s e t

  then_run-Ran :
      (p q : Proc S) (s t : Sensors S) (e : RangeResult) (r : Run (RangeResult × Sensors S))
      → p s ≡ r
      → then_run r q ≡ returns (e, t)
      → Ran p q s e t
  then_run-Ran p q s t e (returns (RangeResult.ok, u)) h k = both u h k
  then_run-Ran p q s t e (returns (RangeResult.error_i2c, u)) h k = first (h ∙ k)
  then_run-Ran p q s t e (returns (RangeResult.error_boot, u)) h k = first (h ∙ k)
  then_run-Ran p q s t e (returns (RangeResult.error_spad, u)) h k = first (h ∙ k)
  then_run-Ran p q s t e (returns (RangeResult.error_measure_ongoing, u)) h k = first (h ∙ k)
  then_run-Ran p q s t e (returns (value_5, u)) h k = first (h ∙ k)
  then_run-Ran p q s t e asserts h k = cc
  then_run-Ran p q s t e hangs h k = cc

  pub then-Ran :
      (p q : Proc S) (s t : Sensors S) (e : RangeResult)
      → (p ⨟ q) s ≡ returns (e, t)
      → Ran p q s e t
  unfolding ◌⨟◌
  then-Ran p q s t e h = then_run-Ran p q s t e (p s) refl h

  -- What a function keeps of the state, where it returns.
  pub record Keeps {A : Type 0} (f : Sensors S → A) (p : Proc S) : Type 0 where
    pub kept : (s t : Sensors S) (e : RangeResult) → p s ≡ returns (e, t) → f t ≡ f s

module _ {S A : Type 0} (f : Sensors S → A) where
  pub Keeps-then : (p q : Proc S) → Keeps f p → Keeps f q → Keeps f (p ⨟ q)
  Keeps-then p q hp hq = record {
    kept = λ s t e h. elim (then-Ran p q s t e h) [
      | first k ↦ hp.kept s t e k
      | both u k l ↦ hq.kept u t e l ∙ hp.kept s u RangeResult.ok k
    ];
  }

  pub Keeps-return : (e : RangeResult) → Keeps f (return e)
  Keeps-return e = record { kept = λ s t d h. cc }

-- The parts that the i2c driver does not hold.
module _ {S A : Type 0} (i2c : I2cDriver S) (f : Sensors S → A)
    (apart : (s : Sensors S) (l : S) → f (record s { link = l }) ≡ f s) where
  pub Keeps-write_bytes : (addr : ℕ) (bytes : List ℕ) → Keeps f (write_bytes i2c addr bytes)
  unfolding write_bytes
  Keeps-write_bytes addr bytes = record {
    kept = λ s t e h. elim (Option-cases (i2c.write addr bytes s.link)) [
      | inl n ↦ cc
      | inr (w, i) ↦ cc (apart s w.1)
    ];
  }

  pub Keeps-read_bytes :
      (addr : ℕ) (bytes : List ℕ) (k : List ℕ → Proc S)
      → ((b : List ℕ) → Keeps f (k b))
      → Keeps f (read_bytes i2c addr bytes k)
  unfolding read_bytes ◌⨟◌
  Keeps-read_bytes addr bytes k hk = record {
    kept = λ s t e h. elim (Option-cases (i2c.read addr bytes s.link)) [
      | inl n ↦ cc
      | inr ((d, b, l), i) ↦
          elim (then-Ran (λ s. returns (transferred d, record s { link = l })) (k b) s t e cc) [
            | first j ↦ cc (apart s l)
            | both u j m ↦ (hk b).kept u t e m ∙ cc (j, apart s l)
          ]
    ];
  }

  pub Keeps-write8 : (addr value : ℕ) → Keeps f (write8 i2c addr value)
  unfolding write8
  Keeps-write8 addr value = Keeps-write_bytes addr (value ∷ [])

  pub Keeps-read8 :
      (addr value : ℕ) (k : ℕ → Proc S)
      → ((v : ℕ) → Keeps f (k v))
      → Keeps f (read8 i2c addr value k)
  unfolding read8
  Keeps-read8 addr value k hk =
      Keeps-read_bytes addr (value ∷ []) (λ b. k (get_or b 0 value)) (λ b. hk (get_or b 0 value))

  pub Keeps-i2c_slave : (addr : ℕ) → Keeps f (i2c_slave i2c addr)
  unfolding i2c_slave
  Keeps-i2c_slave addr = record {
    kept = λ s t e h. cc (apart s (i2c.i2c_set_slave_address addr s.link));
  }

  pub Keeps-vl53l0x_write_8regs : (regs : List (ℕ × ℕ)) → Keeps f (vl53l0x_write_8regs i2c regs)
  unfolding vl53l0x_write_8regs
  Keeps-vl53l0x_write_8regs [] = Keeps-return f RangeResult.ok
  Keeps-vl53l0x_write_8regs (r ∷ regs) =
      Keeps-then f _ _ (Keeps-write8 r.0 r.1) (Keeps-vl53l0x_write_8regs regs)

  Keeps-poll_step : (b : Bool) (again : Proc S) → Keeps f again → Keeps f (poll_step i2c b again)
  Keeps-poll_step true again h = record { kept = λ s t e k. cc }
  Keeps-poll_step false again h = h

  pub Keeps-poll : (fuel addr : ℕ) (ready : ℕ → Bool) → Keeps f (poll i2c fuel addr ready)
  unfolding poll
  Keeps-poll zero addr ready = record { kept = λ s t e h. cc }
  Keeps-poll (suc fuel) addr ready =
      Keeps-read8 addr 0 _ (λ value. Keeps-poll_step (ready value) _ (Keeps-poll fuel addr ready))

  Keeps-write_stop_variable : Keeps f (write_stop_variable i2c)
  unfolding write_stop_variable
  Keeps-write_stop_variable = record { kept = λ s. (Keeps-write8 0x91 s.stop_variable).kept s }

  -- A start of a measurement leaves all that is not the i2c driver's.
  pub Keeps-vl53l0x_start_sysrange :
      (polls : ℕ) (idx : Idx) → Keeps f (vl53l0x_start_sysrange i2c polls idx)
  unfolding vl53l0x_start_sysrange
  Keeps-vl53l0x_start_sysrange polls idx =
      search
        (
          Keeps-then, Keeps-i2c_slave, Keeps-vl53l0x_write_8regs, Keeps-write_stop_variable,
          Keeps-write8, Keeps-poll,
        )
        depth 8
