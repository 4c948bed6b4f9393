-- ===== src/Drivers/Vl53l0x/Spads/Eligible.antt =====
-- Which SPADs may be selected, and what a selection holds while the loops of
-- `vl53l0x_set_spads_from_nvm` run.
use nsumo_video.Prelude.{
  ltb, leb, ◌==◌, if◌then◌else◌, Bool-cases, length, get_or, set, replicate, length-set,
  get_or-set_self, get_or-set_ne, every_below, row_below, ℕ, zero, suc, ◌+◌, ◌-◌, ◌*◌, ◌/◌, ◌%◌,
  ◌≤◌, ◌<◌, ◌≡◌, refl, sym, ap, subst, ◌∙◌, ◌≢◌, inl, inr, Bool, true, false, not, ◌&&◌, ◌||◌, List,
  arith,
}
use nsumo_video.Drivers.Bits.{set_bit, test_bit, test_bit-set_bit, set_bit-lt}
use nsumo_video.Drivers.Vl53l0x.Spads.{Selection, enable_spad, visit_spad}

-- A SPAD of a map of six bytes.
abbrev pub spad_bit : List ℕ → ℕ → Bool
spad_bit spad_map i = test_bit (get_or spad_map (i / 8) 0) (i % 8)

zero_bytes : (n p : ℕ) → get_or (replicate n 0) p 0 < 256
zero_bytes zero p = omega arith
zero_bytes (suc n) zero = omega arith
zero_bytes (suc n) (suc p) = zero_bytes n p

add_one : (i : ℕ) → i + 1 ≡ suc i
add_one i = omega arith

suc_add : (d i : ℕ) → suc d + i ≡ d + i + 1
suc_add d i = omega arith

module _ (good : List ℕ) (offset : ℕ) where
  -- A good SPAD of the wanted type.
  unfoldable pub eligible : ℕ → Bool
  eligible i = leb offset i && spad_bit good i

  unfoldable pub eligible_below : ℕ → ℕ
  unfolding eligible
  eligible_below zero = 0
  eligible_below (suc i) = let rest = eligible_below i in if eligible i then rest + 1 else rest

  eligible_below_next :
      (i : ℕ)
      → eligible_below (i + 1) ≡ (if eligible i then eligible_below i + 1 else eligible_below i)
  unfolding eligible_below
  eligible_below_next i = ap eligible_below (add_one i)

  eligible_below-le : (i d : ℕ) → eligible_below i ≤ eligible_below (d + i)
  unfolding eligible_below
  eligible_below-le i zero = ground arith
  eligible_below-le i (suc d) =
      ground
        (arith, eligible_below-le i d, eligible_below_next (d + i), ap eligible_below (suc_add d i))

  -- The loops in front of SPAD `i`.
  pub record Reached (count i : ℕ) (m : Selection) : Type 0 where
    pub upto : i ≤ 44
    pub late : i ≡ 44 → eligible_below 43 < count
    pub rows : length m.spad_map ≡ 6
    pub bytes : (p : ℕ) → get_or m.spad_map p 0 < 256
    pub counted : m.enabled_count ≡ eligible_below i
    pub within : m.enabled_count ≤ count
    pub bits : (j : ℕ) → j < 48 → spad_bit m.spad_map j ≡ (ltb j i && eligible j)

  -- A SPAD that is enabled is the only one that changes.
  spad_bit-enable :
      (row column j : ℕ) (spad_map : List ℕ)
      → row < 6
      → column < 8
      → length spad_map ≡ 6
      → ((p : ℕ) → get_or spad_map p 0 < 256)
      → spad_bit (set spad_map row (set_bit (get_or spad_map row 0) column)) j
        ≡ ((row * 8 + column == j) || spad_bit spad_map j)
  spad_bit-enable row column j spad_map h k l b = ground (
    arith,
    b row,
    get_or-set_self spad_map row (set_bit (get_or spad_map row 0) column) 0,
    get_or-set_ne spad_map row (j / 8) (set_bit (get_or spad_map row 0) column) 0,
    test_bit-set_bit (get_or spad_map row 0) column (j % 8),
  )

  bytes-enable :
      (row column p : ℕ) (spad_map : List ℕ)
      → row < 6
      → column < 8
      → length spad_map ≡ 6
      → ((q : ℕ) → get_or spad_map q 0 < 256)
      → get_or (set spad_map row (set_bit (get_or spad_map row 0) column)) p 0 < 256
  bytes-enable row column p spad_map h k l b = ground (
    arith,
    b row,
    b p,
    get_or-set_self spad_map row (set_bit (get_or spad_map row 0) column) 0,
    get_or-set_ne spad_map row p (set_bit (get_or spad_map row 0) column) 0,
    set_bit-lt (get_or spad_map row 0) column,
  )

  visit_spad-eligible :
      (row column : ℕ) (m : Selection)
      → column < 8
      → visit_spad good offset row column m
        ≡ (if eligible (row * 8 + column) then enable_spad row column m else m)
  unfolding visit_spad eligible
  visit_spad-eligible row column m h =
      let q : (row * 8 + column) / 8 ≡ row = omega arith in
      let r : (row * 8 + column) % 8 ≡ column = omega arith in ground (arith, q, r)

  enable_spad-Reached :
      (count row column : ℕ) (m : Selection)
      → row * 8 + column < 44
      → column < 8
      → m.enabled_count ≢ count
      → eligible (row * 8 + column) ≡ true
      → Reached count (row * 8 + column) m
      → Reached count (row * 8 + column + 1) (enable_spad row column m)
  enable_spad-Reached count row column m h k n e r = record {
    upto = omega arith;
    late = λ q.
        let p : eligible_below (row * 8 + column) ≡ eligible_below 43 =
          ap eligible_below (omega (arith, q)) in
        omega (arith, p, r.counted, r.within, n);
    rows = length-set m.spad_map row _ ∙ r.rows;
    bytes = λ p. bytes-enable row column p m.spad_map (omega arith) k r.rows r.bytes;
    counted = ground (arith, eligible_below_next (row * 8 + column), r.counted);
    within = omega (arith, r.within);
    bits = λ j l. ground (
      arith,
      spad_bit-enable row column j m.spad_map (omega arith) k r.rows r.bytes,
      r.bits j l,
      e,
    );
  }

  pass_spad-Reached :
      (count i : ℕ) (m : Selection)
      → i < 44
      → m.enabled_count ≢ count
      → eligible i ≡ false
      → Reached count i m
      → Reached count (i + 1) m
  pass_spad-Reached count i m h n e r = record {
    upto = omega arith;
    late = λ q.
        let p : eligible_below (i) ≡ eligible_below 43 = ap eligible_below (omega (arith, q)) in
        omega (arith, p, r.counted, r.within, n);
    rows = r.rows;
    bytes = r.bytes;
    counted = ground (arith, eligible_below_next i, r.counted);
    within = r.within;
    bits = λ j l. ground (arith, r.bits j l, e);
  }

  pub visit_spad-Reached :
      (count row column : ℕ) (m : Selection)
      → row * 8 + column < 44
      → column < 8
      → m.enabled_count ≢ count
      → Reached count (row * 8 + column) m
      → Reached count (row * 8 + column + 1) (visit_spad good offset row column m)
  visit_spad-Reached count row column m h k n r =
      subst (Reached count (row * 8 + column + 1)) (sym (visit_spad-eligible row column m k))
        (elim (Bool-cases (eligible (row * 8 + column))) [
          | inl e ↦ rw e (enable_spad-Reached count row column m h k n e r)
          | inr e ↦ rw e (pass_spad-Reached count (row * 8 + column) m h n e r)
        ])

  -- How a loop may end: without a selection only where there are too few eligible SPADs, and else in
  -- front of some SPAD.

  pub eligible_below_mono : (i j : ℕ) → i ≤ j → eligible_below i ≤ eligible_below j
  eligible_below_mono i j h =
      let p : j - i + i ≡ j = omega arith in
      subst (λ k. eligible_below i ≤ eligible_below k) p (eligible_below-le i (j - i))

  pub first-eligible :
      (count i j : ℕ)
      → eligible_below i ≡ count
      → (ltb j i && eligible j) ≡ (eligible j && ltb (eligible_below j) count)
  first-eligible count i j h =
      ground (arith, eligible_below_mono i j, eligible_below_mono (j + 1) i, eligible_below_next j)

  none_selected : every_below 48 (λ j. not (spad_bit (replicate 6 0) j)) ≡ true
  unfolding every_below test_bit
  none_selected = refl

  pub start-Reached :
      (count : ℕ) → Reached count 0 (record { spad_map = replicate 6 0; enabled_count = 0 })
  unfolding eligible_below
  start-Reached count = record {
    upto = omega arith;
    late = λ q. absurd (omega (arith, q));
    rows = refl;
    bytes = λ p. zero_bytes 6 p;
    counted = refl;
    within = omega arith;
    bits = λ j l.
        ground (arith, row_below 48 (λ j. not (spad_bit (replicate 6 0) j)) j none_selected l);
  }
