-- ===== src/App/Line/Direction.antt =====
-- What `line_get` of src/app/line.c reports.
use nsumo_video.Prelude.{ltb, ℕ, ◌≡◌, ◌↔◌, Bool, true, false, arith}
use nsumo_video.App.Types.{Line}
use nsumo_video.App.Line.{line_detected_voltage_threshold, Voltages, line_get}

-- A sensor sees the line where its voltage is below the threshold.
abbrev pub seen : ℕ → Bool
seen voltage = ltb voltage line_detected_voltage_threshold

-- `line_get` reports no line exactly where no sensor sees it.
pub line_get_none :
    (v : Voltages)
    → (line_get v ≡ Line.none) ↔ (
        (seen v.front_left ≡ false)
        × (seen v.front_right ≡ false)
        × (seen v.back_left ≡ false)
        × (seen v.back_right ≡ false))
unfolding line_get
line_get_none v = ground arith

-- `line_get` reports a diagonal exactly where two opposite sensors see the line and the other two
-- do not.
pub line_get_diagonal :
    (v : Voltages)
    → ((line_get v ≡ Line.diagonal_left) ↔ (
        (seen v.front_left ≡ true)
        × (seen v.back_right ≡ true)
        × (seen v.front_right ≡ false)
        × (seen v.back_left ≡ false)))
      × ((line_get v ≡ Line.diagonal_right) ↔ (
          (seen v.front_right ≡ true)
          × (seen v.back_left ≡ true)
          × (seen v.front_left ≡ false)
          × (seen v.back_right ≡ false)))
unfolding line_get
line_get_diagonal v = ground arith

-- The left and right of the robot swapped.
abbrev pub mirror : Voltages → Voltages
mirror v = record {
  front_left = v.front_right;
  front_right = v.front_left;
  back_left = v.back_right;
  back_right = v.back_left;
}

abbrev pub mirror_line : Line → Line
mirror_line Line.left = Line.right
mirror_line Line.right = Line.left
mirror_line Line.front_left = Line.front_right
mirror_line Line.front_right = Line.front_left
mirror_line Line.back_left = Line.back_right
mirror_line Line.back_right = Line.back_left
mirror_line Line.diagonal_left = Line.diagonal_right
mirror_line Line.diagonal_right = Line.diagonal_left
mirror_line l = l

-- Swapping left and right on the sensors swaps left and right in the report.
pub line_get-mirror : (v : Voltages) → line_get (mirror v) ≡ mirror_line (line_get v)
unfolding line_get
line_get-mirror v = ground arith
