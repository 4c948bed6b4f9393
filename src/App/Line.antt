-- ===== src/App/Line.antt =====
-- src/app/line.c: which line sensors see the white border, as a direction.
pub mod Direction
use nsumo_video.Prelude.{ltb, if◌then◌else◌, ℕ, Bool}
use nsumo_video.App.Types.{Line}

abbrev pub line_detected_voltage_threshold : ℕ
line_detected_voltage_threshold = 700

-- `struct qre1113_voltages` of src/drivers/qre1113.h (uint16_t each).
pub record Voltages : Type 0 where
  pub front_left : ℕ
  pub front_right : ℕ
  pub back_left : ℕ
  pub back_right : ℕ

-- The ladder of `line_get`.
line_of : Bool → Bool → Bool → Bool → Line
line_of fl fr bl br =
    if fl
    then (if fr
        then Line.front
        else if bl
        then Line.left
        else if br
        then Line.diagonal_left
        else Line.front_left)
    else if fr
    then (if br then Line.right else if bl then Line.diagonal_right else Line.front_right)
    else if bl
    then (if br then Line.back else Line.back_left)
    else if br
    then Line.back_right
    else Line.none

unfoldable pub line_get : Voltages → Line
unfolding line_of
line_get v =
    line_of (ltb v.front_left line_detected_voltage_threshold)
      (ltb v.front_right line_detected_voltage_threshold)
      (ltb v.back_left line_detected_voltage_threshold)
      (ltb v.back_right line_detected_voltage_threshold)
