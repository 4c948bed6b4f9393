-- ===== src/Drivers/Adc/Samples.antt =====
-- Which sample each voltage of src/drivers/qre1113.c is.
use nsumo_video.Prelude.{
  ltb, leb, if◌then◌else◌, length, get_or, set, length-set, get_or-set_self, get_or-set_ne, ℕ, zero,
  suc, ◌+◌, ◌-◌, ◌≤◌, ◌<◌, ◌≡◌, refl, ◌∙◌, true, false, ◌&&◌, some, List, [], ◌∷◌, arith,
}
use nsumo_video.Drivers.Io.{io_port, io_pin_idx}
use nsumo_video.App.Line.{Voltages}
use nsumo_video.Drivers.Adc.{
  sequence_control, io_adc_pins, Adc, adc_init, copy_channels, isr_adc10, qre1113_get_voltages,
  line_init,
}

-- The loop of the interrupt, channel by channel.
copy_channels_lem :
    (n i cnt k : ℕ) (block cache : List ℕ)
    → i + n ≤ length cache
    → get_or (copy_channels n i cnt block cache) k 0
      ≡ (if leb i k && ltb k (i + n) then get_or block (cnt - 1 - k) 0 else get_or cache k 0)
unfolding copy_channels
copy_channels_lem zero i cnt k block cache h = ground arith
copy_channels_lem (suc n) i cnt k block cache h = ground (
  arith,
  copy_channels_lem n (i + 1) cnt k block (set cache i (get_or block (cnt - 1 - i) 0)),
  length-set cache i (get_or block (cnt - 1 - i) 0),
  get_or-set_self cache i (get_or block (cnt - 1 - i) 0) 0,
  get_or-set_ne cache i k (get_or block (cnt - 1 - i) 0) 0,
)

-- `adc_init` on a module that was not initialized fails no assertion. It enables the four pins and
-- samples six channels.
pub adc_init_lem :
    (a : Adc)
    → a.initialized ≡ false
    → adc_init a
      ≡ some (record a {
        adc_pins = io_adc_pins;
        control = sequence_control 5;
        adc10ct = true;
        converting = true;
        adc10ae0 = 57;
        dtc_channel_cnt = 6;
        adc10dtc1 = 6;
        initialized = true;
      })
unfolding adc_init io_port io_pin_idx
adc_init_lem a h = rw h refl

-- The values of the four pins, in the order of `io_adc_pins`.
copied : List ℕ → List ℕ → List ℕ
copied cache values =
    set (set (set (set values 3 (get_or cache 3 0)) 4 (get_or cache 4 0)) 0 (get_or cache 0 0)) 5
      (get_or cache 5 0)

copied_lem :
    (cache values : List ℕ)
    → length values ≡ 8
    → (get_or (copied cache values) 3 0 ≡ get_or cache 3 0)
      × (get_or (copied cache values) 0 0 ≡ get_or cache 0 0)
      × (get_or (copied cache values) 4 0 ≡ get_or cache 4 0)
      × (get_or (copied cache values) 5 0 ≡ get_or cache 5 0)
unfolding copied
copied_lem cache values h =
    let v3 = set values 3 (get_or cache 3 0) in
    let v4 = set v3 4 (get_or cache 4 0) in
    let v0 = set v4 0 (get_or cache 0 0) in
    let l3 : length v3 ≡ 8 = length-set values 3 (get_or cache 3 0) ∙ h in
    let l4 : length v4 ≡ 8 = length-set v3 4 (get_or cache 4 0) ∙ l3 in
    let l0 : length v0 ≡ 8 = length-set v4 0 (get_or cache 0 0) ∙ l4 in
    (
      get_or-set_ne v0 5 3 (get_or cache 5 0) 0 (omega arith)
          ∙ (get_or-set_ne v4 0 3 (get_or cache 0 0) 0 (omega arith)
              ∙ (get_or-set_ne v3 4 3 (get_or cache 4 0) 0 (omega arith)
                  ∙ get_or-set_self values 3 (get_or cache 3 0) 0 (omega (arith, h)))),
      get_or-set_ne v0 5 0 (get_or cache 5 0) 0 (omega arith)
          ∙ get_or-set_self v4 0 (get_or cache 0 0) 0 (omega (arith, l4)),
      get_or-set_ne v0 5 4 (get_or cache 5 0) 0 (omega arith)
          ∙ (get_or-set_ne v4 0 4 (get_or cache 0 0) 0 (omega arith)
              ∙ get_or-set_self v3 4 (get_or cache 4 0) 0 (omega (arith, l3))),
      get_or-set_self v0 5 (get_or cache 5 0) 0 (omega (arith, l0)),
    )

qre1113_get_voltages-copied :
    (a : Adc) (garbage : List ℕ)
    → a.adc_pins ≡ io_adc_pins
    → length garbage ≡ 8
    → qre1113_get_voltages garbage a
      ≡ some (record {
        front_left = get_or a.adc_dtc_block_cache 3 0;
        front_right = get_or a.adc_dtc_block_cache 0 0;
        back_left = get_or a.adc_dtc_block_cache 4 0;
        back_right = get_or a.adc_dtc_block_cache 5 0;
      })
unfolding qre1113_get_voltages io_port io_pin_idx copied io_adc_pins
qre1113_get_voltages-copied a garbage p h =
    let (f, r, l, b) = copied_lem a.adc_dtc_block_cache garbage h in
    rw p (λ j.
      some (record { front_left = f j; front_right = r j; back_left = l j; back_right = b j }))

-- With the pins of `adc_init`, the voltages are read without a failed assertion, whatever the cache and
-- the stack hold.
pub qre1113_get_voltages-some :
    (a : Adc) (garbage : List ℕ)
    → a.adc_pins ≡ io_adc_pins
    → (v : Voltages) × (qre1113_get_voltages garbage a ≡ some v)
unfolding qre1113_get_voltages io_port io_pin_idx io_adc_pins copied
qre1113_get_voltages-some a garbage p =
    let values = copied a.adc_dtc_block_cache garbage in
    (
      record {
        front_left = get_or values 3 0;
        front_right = get_or values 0 0;
        back_left = get_or values 4 0;
        back_right = get_or values 5 0;
      },
      rw p refl,
    )

-- The six samples of a sequence in the order in which the transfer controller writes them: from
-- channel 5 down to channel 0.
abbrev pub sequence : (ℕ → ℕ) → List ℕ
sequence sample = sample 5 ∷ sample 4 ∷ sample 3 ∷ sample 2 ∷ sample 1 ∷ sample 0 ∷ []

-- `line_init` on modules that were not initialized fails no assertion. When the transfer controller
-- has written a sequence of samples from the last channel down, which is what the user guide says of
-- it, and the interrupt has run, the four voltages are the samples of the channels of their pins:
-- 3, 0, 4 and 5.
pub qre1113_get_voltages_lem :
    (a : Adc) (sample : ℕ → ℕ) (garbage : List ℕ)
    → a.initialized ≡ false
    → length a.adc_dtc_block_cache ≡ 8
    → length garbage ≡ 8
    → (b : Adc) × (line_init false false a ≡ some b)
      × (qre1113_get_voltages garbage (isr_adc10 (record b { adc_dtc_block = sequence sample }))
          ≡ some (record {
            front_left = sample 3;
            front_right = sample 0;
            back_left = sample 4;
            back_right = sample 5;
          }))
unfolding line_init isr_adc10
qre1113_get_voltages_lem a sample garbage i c g =
    let cache = copy_channels 6 0 6 (sequence sample) a.adc_dtc_block_cache in
    let copy : (k : ℕ) → k < 6 → get_or cache k 0 ≡ get_or (sequence sample) (5 - k) 0 = (λ k h.
      ground (
        arith,
        copy_channels_lem 6 0 6 k (sequence sample) a.adc_dtc_block_cache (omega (arith, c)),
      )) in
    let b : Adc = record a {
      adc_pins = io_adc_pins;
      control = sequence_control 5;
      adc10ct = true;
      converting = true;
      adc10ae0 = 57;
      dtc_channel_cnt = 6;
      adc10dtc1 = 6;
      initialized = true;
    } in
    (
      b,
      adc_init_lem a i,
      qre1113_get_voltages-copied (isr_adc10 (record b { adc_dtc_block = sequence sample })) garbage
            refl g
          ∙ (λ j. some (record {
            front_left = copy 3 (omega arith) j;
            front_right = copy 0 (omega arith) j;
            back_left = copy 4 (omega arith) j;
            back_right = copy 5 (omega arith) j;
          })),
    )
