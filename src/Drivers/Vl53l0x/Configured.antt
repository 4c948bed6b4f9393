-- ===== src/Drivers/Vl53l0x/Configured.antt =====
-- The configuration of a sensor in src/drivers/vl53l0x.c, from its SPADs to the calibration: no assertion
-- fails there.
use nsumo_video.Prelude.{ℕ, ◌/◌, ◌%◌, List, [], ◌∷◌}
use nsumo_video.Drivers.Vl53l0x.{I2cDriver, Sensors, Proc}
use nsumo_video.Drivers.Vl53l0x.Spads.{
  number_of, nvm_finish, nvm_restore, nvm_request, vl53l0x_get_spad_info_from_nvm, set_spads,
  vl53l0x_set_spads_from_nvm,
}
use nsumo_video.Drivers.Vl53l0x.Setup.{
  default_tuning_regs, CalibrationType, vl53l0x_load_default_tuning_settings,
  vl53l0x_set_sequence_steps_enabled, vl53l0x_static_init, vl53l0x_perform_single_ref_calibration,
  vl53l0x_perform_ref_calibration,
}
use nsumo_video.Drivers.Vl53l0x.Safe.{
  Safe, IsTotal, Safe-and, Safe-write8, Safe-vl53l0x_write_8regs, Safe-read_good_spad_map,
  Safe-read8, Safe-vl53l0x_read_strobe, Safe-read_bytes, Safe-select_then,
  Safe-vl53l0x_configure_interrupt, Safe-poll,
}

module _ {S : Type 0} (i2c : I2cDriver S) (total : IsTotal i2c) (E P : Sensors S → Type 0)
    (weak : (s : Sensors S) → P s → E s)
    (apart : (s : Sensors S) (l : S) (v : ℕ)
      → P s
      → P (record s { link = l; stop_variable = v })) where
  Safe-nvm_finish :
      (polls : ℕ) (k : ℕ → ℕ → List ℕ → Proc S) (info : List ℕ) (w : ℕ)
      → ((a b : ℕ) (c : List ℕ) → Safe E P P (k a b c))
      → Safe E P P (nvm_finish i2c polls k info w)
  unfolding nvm_finish
  Safe-nvm_finish polls k info w h =
      Safe-and i2c total E P weak apart _ _ (Safe-write8 i2c total E P weak apart _ _) (
        Safe-and i2c total E P weak apart _ _
          (Safe-vl53l0x_write_8regs i2c total E P weak apart
            ((0xFF, 0x01) ∷ (0x00, 0x01) ∷ (0xFF, 0x00) ∷ (0x80, 0x00) ∷ []))
          (Safe-read_good_spad_map i2c total E P weak apart polls _
            (h (number_of info / 0x100 % 0x80) (number_of info / 0x8000 % 2))))

  Safe-nvm_restore :
      (polls : ℕ) (k : ℕ → ℕ → List ℕ → Proc S) (v : ℕ) (info : List ℕ)
      → ((a b : ℕ) (c : List ℕ) → Safe E P P (k a b c))
      → Safe E P P (nvm_restore i2c polls k v info)
  unfolding nvm_restore
  Safe-nvm_restore polls k v info h =
      Safe-and i2c total E P weak apart _ _
        (Safe-vl53l0x_write_8regs i2c total E P weak apart ((0x81, 0x00) ∷ (0xFF, 0x06) ∷ []))
        (Safe-read8 i2c total E P weak apart 0x83 v (nvm_finish i2c polls k info)
          (λ w. Safe-nvm_finish polls k info w h))

  Safe-nvm_request :
      (polls : ℕ) (k : ℕ → ℕ → List ℕ → Proc S) (v : ℕ)
      → ((a b : ℕ) (c : List ℕ) → Safe E P P (k a b c))
      → Safe E P P (nvm_request i2c polls k v)
  unfolding nvm_request
  Safe-nvm_request polls k v h =
      Safe-and i2c total E P weak apart _ _ (Safe-write8 i2c total E P weak apart _ _) (
        Safe-and i2c total E P weak apart _ _
          (Safe-vl53l0x_write_8regs i2c total E P weak apart
            ((0xFF, 0x07) ∷ (0x81, 0x01) ∷ (0x80, 0x01) ∷ []))
          (Safe-and i2c total E P weak apart _ _ (Safe-write8 i2c total E P weak apart _ _) (
            Safe-and i2c total E P weak apart _ _
              (Safe-vl53l0x_read_strobe i2c total E P weak apart polls)
              (Safe-read_bytes i2c total E P weak apart 0x90 0 (0 ∷ 0 ∷ 0 ∷ [])
                (nvm_restore i2c polls k v) (λ info. Safe-nvm_restore polls k v info h)))))

  Safe-set_spads :
      (polls count spad_type : ℕ) (good : List ℕ)
      → Safe E P P (set_spads i2c polls count spad_type good)
  unfolding set_spads
  Safe-set_spads polls count spad_type good =
      Safe-and i2c total E P weak apart _ _
        (Safe-vl53l0x_write_8regs i2c total E P weak apart
          ((0xFF, 0x01) ∷ (0x4F, 0x00) ∷ (0x4E, 0x2C) ∷ (0xFF, 0x00) ∷ (0xB6, 0xB4) ∷ []))
        (Safe-select_then i2c total E P weak apart good _ count _)

  Safe-vl53l0x_set_spads_from_nvm : (polls : ℕ) → Safe E P P (vl53l0x_set_spads_from_nvm i2c polls)
  unfolding vl53l0x_set_spads_from_nvm vl53l0x_get_spad_info_from_nvm
  Safe-vl53l0x_set_spads_from_nvm polls =
      Safe-and i2c total E P weak apart _ _
        (Safe-vl53l0x_write_8regs i2c total E P weak apart
          ((0x80, 0x01) ∷ (0xFF, 0x01) ∷ (0x00, 0x00) ∷ (0xFF, 0x06) ∷ []))
        (Safe-read8 i2c total E P weak apart 0x83 0 (nvm_request i2c polls (set_spads i2c polls))
          (λ v. Safe-nvm_request polls (set_spads i2c polls) v (Safe-set_spads polls)))

  pub Safe-vl53l0x_static_init : (polls : ℕ) → Safe E P P (vl53l0x_static_init i2c polls)
  unfolding vl53l0x_static_init vl53l0x_load_default_tuning_settings
      vl53l0x_set_sequence_steps_enabled
  Safe-vl53l0x_static_init polls =
      Safe-and i2c total E P weak apart _ _ (Safe-vl53l0x_set_spads_from_nvm polls) (
        Safe-and i2c total E P weak apart _ _
          (Safe-vl53l0x_write_8regs i2c total E P weak apart default_tuning_regs)
          (Safe-and i2c total E P weak apart _ _
            (Safe-vl53l0x_configure_interrupt i2c total E P weak apart)
            (Safe-write8 i2c total E P weak apart _ _)))

  Safe-single_ref_calibration :
      (polls : ℕ) (c : CalibrationType)
      → Safe E P P (vl53l0x_perform_single_ref_calibration i2c polls c)
  unfolding vl53l0x_perform_single_ref_calibration
  Safe-single_ref_calibration polls c =
      Safe-and i2c total E P weak apart _ _ (Safe-write8 i2c total E P weak apart _ _) (
        Safe-and i2c total E P weak apart _ _ (Safe-write8 i2c total E P weak apart _ _) (
          Safe-and i2c total E P weak apart _ _ (Safe-poll i2c total E P weak apart polls _ _) (
            Safe-and i2c total E P weak apart _ _ (Safe-write8 i2c total E P weak apart _ _)
              (Safe-write8 i2c total E P weak apart _ _))))

  pub Safe-vl53l0x_perform_ref_calibration :
      (polls : ℕ) → Safe E P P (vl53l0x_perform_ref_calibration i2c polls)
  unfolding vl53l0x_perform_ref_calibration vl53l0x_set_sequence_steps_enabled
  Safe-vl53l0x_perform_ref_calibration polls =
      Safe-and i2c total E P weak apart _ _ (Safe-single_ref_calibration polls CalibrationType.vhv)
        (Safe-and i2c total E P weak apart _ _
          (Safe-single_ref_calibration polls CalibrationType.phase)
          (Safe-write8 i2c total E P weak apart _ _))
