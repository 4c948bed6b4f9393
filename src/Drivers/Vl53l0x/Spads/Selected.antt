-- ===== src/Drivers/Vl53l0x/Spads/Selected.antt =====
-- Which SPADs the loops of `vl53l0x_set_spads_from_nvm` select.
use nsumo_video.Prelude.{
  ltb, leb, ◌==◌, if◌then◌else◌, Bool-cases, if-is_true, if-is_false, length, ◌>>=◌, ◌>>◌, assert,
  ℕ, zero, suc, ◌+◌, ◌*◌, ◌≤◌, ◌<◌, ◌≡◌, refl, sym, ap, subst, ◌∙◌, ◌⊎◌, inl, inr, true, ◌&&◌,
  Option, none, some, List, arith,
}
use nsumo_video.Drivers.Vl53l0x.Spads.{
  spad_max_count, spad_row_size, Selection, visit_spad, select_columns, select_rows, select_spads,
}
use nsumo_video.Drivers.Vl53l0x.Spads.Eligible.{
  spad_bit, eligible, eligible_below, Reached, visit_spad-Reached, eligible_below_mono,
  first-eligible, start-Reached,
}

module _ (good : List ℕ) (offset : ℕ) where
  Ended : (count : ℕ) → (ℕ → Selection → Type 0) → Option Selection → Type 0
  Ended count P none = eligible_below good offset 43 < count
  Ended count P (some m) = (i : ℕ) × (i < 44) × Reached good offset count i m × P i m

  abbrev DoneOr : (count last : ℕ) → ℕ → Selection → Type 0
  DoneOr count last i m = (m.enabled_count ≡ count) ⊎ (i ≡ last)

  select_columns-Ended :
      (n count row column : ℕ) (m : Selection)
      → n + column ≡ 8
      → Reached good offset count (row * 8 + column) m
      → Ended count (DoneOr count (row * 8 + 8)) (select_columns n good offset count row column m)
  unfolding select_columns Ended
  select_columns-Ended zero count row column m h r =
      (row * 8 + column, omega (arith, r.upto), r, inr (omega arith))
  select_columns-Ended (suc n) count row column m h r =
      let P : Option Selection → Type 0 = Ended count (DoneOr count (row * 8 + 8)) in
      elim (Bool-cases (leb spad_max_count (row * spad_row_size + column))) [
        | inl a ↦ subst P (sym (if-is_true _ none _ a)) (r.late (ground (arith, a, r.upto)))
        | inr b ↦
            subst P (sym (if-is_false _ none _ b)) (elim (Bool-cases (m.enabled_count == count)) [
              | inl d ↦
                  subst P (sym (if-is_true _ (some m) _ d))
                    (row * 8 + column, ground (arith, b), r, inl (ground (arith, d)))
              | inr d ↦ subst P (sym (if-is_false _ (some m) _ d)) (
                  select_columns-Ended n count row (column + 1)
                    (visit_spad good offset row column m) (omega arith)
                    (subst (λ i. Reached good offset count i (visit_spad good offset row column m))
                      (omega arith)
                      (visit_spad-Reached good offset count row column m (ground (arith, b))
                        (omega arith) (ground (arith, d)) r)))
            ])
      ]

  Is : (count : ℕ) → ℕ → Selection → Type 0
  Is count i m = m.enabled_count ≡ count

  next_row-Ended :
      (count last : ℕ) (o : Option Selection) (k : Selection → Option Selection)
      → Ended count (DoneOr count last) o
      → ((m : Selection) → Reached good offset count last m → Ended count (Is count) (k m))
      → Ended count (Is count) (o >>= λ m. if m.enabled_count == count then some m else k m)
  unfolding Ended Is
  next_row-Ended count last none k h f = h
  next_row-Ended count last (some m) k (i, l, r, d) f =
      elim (Bool-cases (m.enabled_count == count)) [
        | inl e ↦
            subst (Ended count (Is count)) (sym (if-is_true _ (some m) _ e))
              (i, l, r, ground (arith, e))
        | inr e ↦ subst (Ended count (Is count)) (sym (if-is_false _ (some m) _ e)) (elim d [
          | inl q ↦ absurd (ground (arith, e, q))
          | inr q ↦ f m (subst (λ j. Reached good offset count j m) q r)
        ])
      ]

  select_rows-Ended :
      (n count row : ℕ) (m : Selection)
      → n + row ≡ 6
      → Reached good offset count (row * 8) m
      → Ended count (Is count) (select_rows n good offset count row m)
  unfolding select_rows Ended
  select_rows-Ended zero count row m h r = absurd (omega (arith, r.upto))
  select_rows-Ended (suc n) count row m h r =
      next_row-Ended count (row * 8 + 8) (select_columns 8 good offset count row 0 m)
        (select_rows n good offset count (row + 1))
        (select_columns-Ended 8 count row 0 m (omega arith)
          (subst (λ i. Reached good offset count i m) (omega arith) r))
        (λ m1 r1.
          select_rows-Ended n count (row + 1) m1 (omega arith)
            (subst (λ i. Reached good offset count i m1) (omega arith) r1))

  -- The map that the loops end with.
  selected_map :
      (count j : ℕ) (o : Option Selection)
      → Ended count (Is count) o
      → count ≤ eligible_below good offset 43
      → j < 48
      → (spad_map : List ℕ) × ((o >>= λ m. assert (m.enabled_count == count) >> some m.spad_map)
          ≡ some spad_map)
        × (length spad_map ≡ 6)
        × (spad_bit spad_map j
            ≡ (eligible good offset j && ltb (eligible_below good offset j) count))
  unfolding Ended Is
  selected_map count j none h k l = absurd (omega (arith, h))
  selected_map count j (some m) (i, s, r, e) k l =
      let q : (m.enabled_count == count) ≡ true = ground (arith, e) in
      (
        m.spad_map,
        ap (λ b. assert b >> some m.spad_map) q,
        r.rows,
        r.bits j l ∙ first-eligible good offset count i j (omega (arith, e, r.counted)),
      )

  no_map :
      (count : ℕ) (o : Option Selection)
      → Ended count (Is count) o
      → eligible_below good offset 43 < count
      → (o >>= λ m. assert (m.enabled_count == count) >> some m.spad_map) ≡ none
  unfolding Ended Is
  no_map count none h k = refl
  no_map count (some m) (i, s, r, e) k =
      absurd (omega (arith, e, r.counted, eligible_below_mono good offset i 43 (omega arith), k))

  -- Call a SPAD eligible where the map of good SPADs has it and its index is at least the offset.
  -- With at least `count` eligible SPADs among the first 43, the loops succeed, and the map has six
  -- bytes and exactly the first `count` eligible SPADs.
  pub select_spads_lem :
      (count j : ℕ)
      → count ≤ eligible_below good offset 43
      → j < 48
      → (spad_map : List ℕ) × (select_spads good offset count ≡ some spad_map)
        × (length spad_map ≡ 6)
        × (spad_bit spad_map j
            ≡ (eligible good offset j && ltb (eligible_below good offset j) count))
  unfolding select_spads
  select_spads_lem count j h k =
      selected_map count j _
        (select_rows-Ended 6 count 0 _ (omega arith) (start-Reached good offset count)) h k

  -- With fewer than `count` eligible SPADs among the first 43, the function returns
  -- VL53L0X_RESULT_ERROR_SPAD, whatever SPAD 43 is, which is the last of the 44.
  pub select_spads_none :
      (count : ℕ) → eligible_below good offset 43 < count → select_spads good offset count ≡ none
  unfolding select_spads
  select_spads_none count h =
      no_map count _ (select_rows-Ended 6 count 0 _ (omega arith) (start-Reached good offset count))
        h

  pub length-select_spads :
      (count : ℕ) (spad_map : List ℕ)
      → select_spads good offset count ≡ some spad_map
      → length spad_map ≡ 6
  length-select_spads count spad_map e =
      elim (Bool-cases (leb count (eligible_below good offset 43))) [
        | inl h ↦
            let (m, q, l, b) = select_spads_lem count 0 (ground (arith, h)) (omega arith) in
            cc (e, q, l)
        | inr h ↦ cc (e, select_spads_none count (ground (arith, h)))
      ]
