-- ===== src/App/Enemy/Position.antt =====
-- What `enemy_get` of src/app/enemy.c reports, and how its predicates divide the positions.
use nsumo_video.Prelude.{ltb, ◌<◌, ◌≡◌, ◌↔◌, Bool, true, false, not, ◌&&◌, ◌||◌, arith}
use nsumo_video.App.Types.{EnemyRange, Enemy}
use nsumo_video.App.Enemy.{
  RangeReading, enemy_get, enemy_detected, enemy_at_left, enemy_at_right, enemy_at_front,
}

-- Exactly one of two.
abbrev pub xor_seen : Bool → Bool → Bool
xor_seen true b = not b
xor_seen false b = b

-- A detected enemy is in exactly one of the three directions that an attack knows (front, left, right),
-- and an enemy that is not detected is in none.
pub enemy_detected_lem :
    (e : Enemy)
    → (enemy_detected e ≡ (enemy_at_front e || enemy_at_left e || enemy_at_right e))
      × ((enemy_at_front e && enemy_at_left e) ≡ false)
      × ((enemy_at_front e && enemy_at_right e) ≡ false)
      × ((enemy_at_left e && enemy_at_right e) ≡ false)
unfolding enemy_detected enemy_at_front enemy_at_left enemy_at_right
enemy_detected_lem e = ground arith

-- An enemy is reported exactly where the reading succeeded and something nearer than 600 mm is seen
-- by the front sensor or by exactly one of the two sensors beside it.
enemy_detected-enemy_get :
    (r : RangeReading)
    → enemy_detected (enemy_get r) ≡ (
        not r.failed
        && (ltb r.front 600 || (xor_seen (ltb r.front_left 600) (ltb r.front_right 600))))
unfolding enemy_detected enemy_get
enemy_detected-enemy_get r = ground arith

-- The reported range is none exactly where the reported enemy does not count as detected.
pub range-enemy_get :
    (r : RangeReading)
    → ((enemy_get r).range ≡ EnemyRange.none) ↔ (enemy_detected (enemy_get r) ≡ false)
unfolding enemy_detected enemy_get
range-enemy_get r = ground arith

-- If each of the three front sensors that sees something nearer than 600 mm sees it nearer than
-- 100 mm, and an enemy is detected, then the enemy is reported as close.
close-enemy_get :
    (r : RangeReading)
    → (ltb r.front 600 ≡ true → r.front < 100)
    → (ltb r.front_left 600 ≡ true → r.front_left < 100)
    → (ltb r.front_right 600 ≡ true → r.front_right < 100)
    → enemy_detected (enemy_get r) ≡ true
    → (enemy_get r).range ≡ EnemyRange.close
unfolding enemy_detected enemy_get
close-enemy_get r hf hl hr d = ground arith
