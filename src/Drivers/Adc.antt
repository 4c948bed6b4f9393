-- ===== src/Drivers/Adc.antt =====
-- src/drivers/adc.c and qre1113.c: the samples of the line sensors, from the block that the transfer
-- controller writes, over the cache of the interrupt, to the four voltages.
pub mod Samples
use nsumo_video.Prelude.{
  ltb, ◌==◌, if◌then◌else◌, get_or, set, ◌>>=◌, ◌>>◌, assert, ℕ, zero, suc, ◌+◌, ◌-◌, ◌%◌, ◌^◌,
  Bool, true, not, Option, some, List, [], ◌∷◌,
}
use nsumo_video.Drivers.Io.{io_port, io_pin_idx}
use nsumo_video.Drivers.Io.Pins.{
  io_line_detect_front_right, io_line_detect_front_left, io_line_detect_back_left,
  io_line_detect_back_right,
}
use nsumo_video.App.Line.{Voltages}

-- `io_to_adc_idx`, with its assertion
unfoldable pub io_to_adc_idx : ℕ → Option ℕ
io_to_adc_idx io = do assert (io_port io == 0); some (io_pin_idx io)

-- `io_adc_pins_arr`
unfoldable pub io_adc_pins : List ℕ
io_adc_pins =
    io_line_detect_front_left ∷ io_line_detect_back_left ∷ io_line_detect_front_right
    ∷ io_line_detect_back_right ∷ []

-- ADC10CTL1 and ADC10CTL0, less the two bits that start a conversion, by their fields.
pub record Control : Type 0 where
  pub inch : ℕ
  pub adc10div : ℕ
  pub conseq : ℕ
  pub shs : ℕ
  pub adc10ssel : ℕ
  pub adc10on : Bool
  pub sref : ℕ
  pub adc10sht : ℕ
  pub msc : Bool
  pub adc10ie : Bool

-- The blocks, the pins, the count of the channels, the registers ADC10CTL1, ADC10CTL0, ADC10AE0, ADC10CT
-- and ADC10DTC1, and whether a conversion is started (ENC and ADC10SC).
pub record Adc : Type 0 where
  pub adc_dtc_block : List ℕ
  pub adc_dtc_block_cache : List ℕ
  pub adc_pins : List ℕ
  pub dtc_channel_cnt : ℕ
  pub control : Control
  pub adc10ct : Bool
  pub converting : Bool
  pub adc10ae0 : ℕ
  pub adc10dtc1 : ℕ
  pub initialized : Bool

-- The loop of `adc_init` over the pins: the sum of the pins' bits (uint8_t) and the last index.
unfoldable pub scan_pins : List ℕ → ℕ → ℕ → Option (ℕ × ℕ)
unfolding io_to_adc_idx
scan_pins [] adc10ae0 last_idx = some (adc10ae0, last_idx)
scan_pins (io ∷ ios) adc10ae0 last_idx = do
  pin_idx ← io_to_adc_idx io
  scan_pins ios ((adc10ae0 + 2 ^ pin_idx) % 256)
      (if ltb last_idx pin_idx then pin_idx else last_idx)

unfoldable pub adc_enable_and_start_conversion : Adc → Adc
adc_enable_and_start_conversion a = record a { converting = true }

-- The two writes with INCHx, ADC10DIV_7, CONSEQ_1, SHS_0, ADC10SSEL_1, ADC10ON, SREF_0, ADC10SHT_2, MSC and
-- ADC10IE.
abbrev pub sequence_control : ℕ → Control
sequence_control last_idx = record {
  inch = last_idx;
  adc10div = 7;
  conseq = 1;
  shs = 0;
  adc10ssel = 1;
  adc10on = true;
  sref = 0;
  adc10sht = 2;
  msc = true;
  adc10ie = true;
}

-- `adc_init`. ADC10SA always points at the block.
unfoldable pub adc_init : Adc → Option Adc
unfolding scan_pins io_adc_pins adc_enable_and_start_conversion
adc_init a = do
  assert (not a.initialized)
  p ← scan_pins io_adc_pins 0 0
  some (record (adc_enable_and_start_conversion a) {
    adc_pins = io_adc_pins;
    control = sequence_control p.1;
    adc10ct = true;
    adc10ae0 = p.0;
    dtc_channel_cnt = p.1 + 1;
    adc10dtc1 = p.1 + 1;
    initialized = true;
  })

-- The loop of `isr_adc10` over `n` channels from channel `i`.
unfoldable pub copy_channels : (n i cnt : ℕ) → List ℕ → List ℕ → List ℕ
copy_channels zero i cnt block cache = cache
copy_channels (suc n) i cnt block cache =
    copy_channels n (i + 1) cnt block (set cache i (get_or block (cnt - 1 - i) 0))

unfoldable pub isr_adc10 : Adc → Adc
unfolding copy_channels adc_enable_and_start_conversion
isr_adc10 a = adc_enable_and_start_conversion (record a {
  adc_dtc_block_cache =
      copy_channels a.dtc_channel_cnt 0 a.dtc_channel_cnt a.adc_dtc_block a.adc_dtc_block_cache;
})

-- The loop of `adc_get_channel_values`.
unfoldable pub copy_pins : List ℕ → List ℕ → List ℕ → Option (List ℕ)
unfolding io_to_adc_idx
copy_pins [] cache values = some values
copy_pins (io ∷ ios) cache values = do
  channel_idx ← io_to_adc_idx io
  copy_pins ios cache (set values channel_idx (get_or cache channel_idx 0))

unfoldable pub adc_get_channel_values : Adc → List ℕ → Option (List ℕ)
unfolding copy_pins
adc_get_channel_values a values = copy_pins a.adc_pins a.adc_dtc_block_cache values

-- `qre1113_get_voltages`. `garbage` is what the stack holds where `values` is.
unfoldable pub qre1113_get_voltages : List ℕ → Adc → Option Voltages
unfolding adc_get_channel_values io_to_adc_idx
qre1113_get_voltages garbage a = do
  values ← adc_get_channel_values a garbage
  front_left ← io_to_adc_idx io_line_detect_front_left
  front_right ← io_to_adc_idx io_line_detect_front_right
  back_left ← io_to_adc_idx io_line_detect_back_left
  back_right ← io_to_adc_idx io_line_detect_back_right
  some (record {
    front_left = get_or values front_left 0;
    front_right = get_or values front_right 0;
    back_left = get_or values back_left 0;
    back_right = get_or values back_right 0;
  })

-- `line_init` and `qre1113_init`, each with its flag.
unfoldable pub line_init : (line_initialized qre1113_initialized : Bool) → Adc → Option Adc
unfolding adc_init
line_init line_initialized qre1113_initialized a = do
  assert (not line_initialized)
  assert (not qre1113_initialized)
  adc_init a
