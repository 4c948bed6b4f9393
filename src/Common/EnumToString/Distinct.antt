-- ===== src/Common/EnumToString/Distinct.antt =====
-- The names of src/common/enum_to_string.c, compared with each other.
use Prim.Native.String.{String}
use text.Mathlib.Text.{◌==◌ as str_eq}
use text.Mathlib.TextEquality.{eq_iff}
use nsumo_video.Prelude.{
  ◌==◌, ==_iff, Bool-cases, every_below, row_below, ℕ, ◌<◌, ◌≡◌, refl, inl, inr, Bool, true, not,
  ◌||◌, arith,
}
use nsumo_video.Common.EnumToString.{state_to_string, state_event_to_string}

-- No two different numbers below `n` have one name.
abbrev is_distinct : ℕ → (ℕ → String) → Bool
is_distinct n f = every_below n (λ a. every_below n (λ b. a == b || not (str_eq (f a) (f b))))

is_distinct_sound :
    (n : ℕ) (f : ℕ → String) (a b : ℕ) → is_distinct n f ≡ true → a < n → b < n → f a ≡ f b → a ≡ b
is_distinct_sound n f a b t h k e =
    let row = row_below n (λ a. every_below n (λ b. a == b || not (str_eq (f a) (f b)))) a t h in
    let cell = row_below n (λ b. a == b || not (str_eq (f a) (f b))) b row k in
    elim (Bool-cases (a == b)) [
      | inl q ↦ (==_iff a b).0 q
      | inr q ↦ (let same : str_eq (f a) (f b) ≡ true = (eq_iff (f a) (f b)).1 e in ground arith)
    ]

states_distinct : is_distinct 5 state_to_string ≡ true
unfolding every_below state_to_string
states_distinct = refl

events_distinct : is_distinct 6 state_event_to_string ≡ true
unfolding every_below state_event_to_string
events_distinct = refl

-- Two states, by their values, that have one name are one state.
pub state_to_string_inj : (a b : ℕ) → a < 5 → b < 5 → state_to_string a ≡ state_to_string b → a ≡ b
state_to_string_inj a b = is_distinct_sound 5 state_to_string a b states_distinct

-- Two events, by their values, that have one name are one event.
pub state_event_to_string_inj :
    (a b : ℕ) → a < 6 → b < 6 → state_event_to_string a ≡ state_event_to_string b → a ≡ b
state_event_to_string_inj a b = is_distinct_sound 6 state_event_to_string a b events_distinct
