-- ===== src/App/Enemy.antt =====
-- src/app/enemy.c: the ranges of the front sensors as a position and a distance.
pub mod Position
pub mod Ranges
pub mod Start
use nsumo_video.Prelude.{ltb, ◌==◌, if◌then◌else◌, ℕ, ◌+◌, ◌/◌, ◌%◌, Bool, true, false}
use nsumo_video.App.Types.{EnemyPos, EnemyRange, Enemy}

abbrev range_detect_threshold : ℕ
range_detect_threshold = 600

abbrev invalid_range : ℕ
invalid_range = 0xFFFF

abbrev range_close : ℕ
range_close = 100

abbrev range_mid : ℕ
range_mid = 200

-- What `vl53l0x_read_range_multiple` hands over: `failed` is a result other than
-- VL53L0X_RESULT_OK, and the ranges (uint16_t, in mm) are those of the three front sensors. The
-- left and right ones are compiled out.
pub record RangeReading : Type 0 where
  pub failed : Bool
  pub front : ℕ
  pub front_left : ℕ
  pub front_right : ℕ

abbrev pub no_enemy : Enemy
no_enemy = record { position = EnemyPos.none; range = EnemyRange.none }

-- `(a + b) / 2`; on the 16-bit target the sum is an unsigned int of 16 bits.
abbrev average : ℕ → ℕ → ℕ
average a b = (a + b) % 65536 / 2

-- The ladder of `enemy_get`: the position, and the range before it is classified.
classify : Bool → Bool → Bool → ℕ → ℕ → ℕ → EnemyPos × ℕ
classify true true true l f r = (EnemyPos.front_all, average (average l f) r)
classify true false true l f r = (EnemyPos.impossible, invalid_range)
classify true true false l f r = (EnemyPos.front_and_front_left, average l f)
classify true false false l f r = (EnemyPos.front_left, l)
classify false true true l f r = (EnemyPos.front_and_front_right, average r f)
classify false false true l f r = (EnemyPos.front_right, r)
classify false true false l f r = (EnemyPos.front, f)
classify false false false l f r = (EnemyPos.none, invalid_range)

distance : ℕ → EnemyRange
distance range =
    if range == invalid_range
    then EnemyRange.none
    else if ltb range range_close
    then EnemyRange.close
    else if ltb range range_mid
    then EnemyRange.mid
    else EnemyRange.far

enemy_seen : EnemyPos × ℕ → Enemy
unfolding distance
enemy_seen p = record { position = p.0; range = distance p.1 }

unfoldable pub enemy_get : RangeReading → Enemy
unfolding classify enemy_seen
enemy_get r =
    if r.failed
    then no_enemy
    else enemy_seen (
        classify (ltb r.front_left range_detect_threshold) (ltb r.front range_detect_threshold)
          (ltb r.front_right range_detect_threshold) r.front_left r.front r.front_right)

abbrev is_detected : EnemyPos → Bool
is_detected EnemyPos.none = false
is_detected EnemyPos.impossible = false
is_detected _ = true

unfoldable pub enemy_detected : Enemy → Bool
enemy_detected e = is_detected e.position

abbrev at_left : EnemyPos → Bool
at_left EnemyPos.left = true
at_left EnemyPos.front_left = true
at_left EnemyPos.front_and_front_left = true
at_left _ = false

unfoldable pub enemy_at_left : Enemy → Bool
enemy_at_left e = at_left e.position

abbrev at_right : EnemyPos → Bool
at_right EnemyPos.right = true
at_right EnemyPos.front_right = true
at_right EnemyPos.front_and_front_right = true
at_right _ = false

unfoldable pub enemy_at_right : Enemy → Bool
enemy_at_right e = at_right e.position

abbrev at_front : EnemyPos → Bool
at_front EnemyPos.front = true
at_front EnemyPos.front_all = true
at_front _ = false

unfoldable pub enemy_at_front : Enemy → Bool
enemy_at_front e = at_front e.position
