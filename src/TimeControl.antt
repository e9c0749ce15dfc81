-- ===== src/TimeControl.antt =====
-- blunder_tutor/utils/time_control.py. The regular expressions are Python's: each is the function that gives the
-- numbers of its groups, when it matches.
mod Examples
use chess_blunder_trainer.Common.{
  ℕ, ◌+◌, ◌*◌, ◌≤◌, ◌≡◌, refl, String, Bool, true, false, Option, none, some, List, [], ◌∷◌, ◌==◌,
  string_eq, if◌then◌else◌, ltb, is_some, arith,
}

pub data GameType : Type 0 where
  ultrabullet bullet blitz rapid classical correspondence unknown : GameType

-- the values of the IntEnum
abbrev pub game_type_code : GameType → ℕ
game_type_code ultrabullet = 0
game_type_code bullet = 1
game_type_code blitz = 2
game_type_code rapid = 3
game_type_code classical = 4
game_type_code correspondence = 5
game_type_code unknown = 6

-- TIME_CONTROL_WITH_INCREMENT, TIME_CONTROL_SECONDS_ONLY, CORRESPONDENCE_PATTERN
pub record Patterns : Type 0 where
  pub with_increment : String → Option (ℕ × ℕ)
  pub seconds_only : String → Option ℕ
  pub correspondence_pattern : String → Option ℕ

abbrev pub avg_moves_per_player : ℕ
avg_moves_per_player = 40

unfoldable pub estimate_game_duration : ℕ → ℕ → ℕ
estimate_game_duration base_seconds increment_seconds =
    base_seconds + avg_moves_per_player * increment_seconds

abbrev pub duration_tiers : List (ℕ × GameType)
duration_tiers = (29, ultrabullet) ∷ (180, bullet) ∷ (480, blitz) ∷ (1500, rapid) ∷ []

abbrev pub first_tier : List (ℕ × GameType) → ℕ → GameType
first_tier [] duration = classical
first_tier ((threshold, game_type) ∷ tiers) duration =
    if ltb duration threshold then game_type else first_tier tiers duration

unfoldable pub duration_to_game_type : ℕ → GameType
duration_to_game_type = first_tier duration_tiers

abbrev seconds_alone : Option ℕ → Option (ℕ × ℕ)
seconds_alone none = none
seconds_alone (some seconds) = some (seconds, 0)

abbrev either_format : Option (ℕ × ℕ) → Option ℕ → Option (ℕ × ℕ)
either_format none seconds = seconds_alone seconds
either_format (some parsed) seconds = some parsed

abbrev type_of : Option (ℕ × ℕ) → GameType
type_of none = unknown
type_of (some (base, increment)) = duration_to_game_type (estimate_game_duration base increment)

module _ (patterns : Patterns) where
  unfoldable pub parse_time_control : Option String → Option (ℕ × ℕ)
  parse_time_control none = none
  parse_time_control (some time_control) =
      if time_control == ""
      then none
      else either_format (patterns.with_increment time_control) (patterns.seconds_only time_control)

  unfoldable pub classify_game_type : Option String → GameType
  classify_game_type none = unknown
  classify_game_type (some time_control) =
      if time_control == ""
      then unknown
      else if time_control == "-"
      then correspondence
      else if is_some (patterns.correspondence_pattern time_control)
      then correspondence
      else type_of (parse_time_control (some time_control))

-- a time control that `parse_time_control` reads and that is no correspondence one
abbrev pub IsClock : Patterns → String → ℕ → ℕ → Type 0
IsClock patterns time_control base increment =
    (parse_time_control patterns (some time_control) ≡ some (base, increment))
    × ((time_control == "") ≡ false)
    × ((time_control == "-") ≡ false)
    × (is_some (patterns.correspondence_pattern time_control) ≡ false)

clock_type :
    (patterns : Patterns) (time_control : String) (base increment : ℕ)
    → IsClock patterns time_control base increment
    → classify_game_type patterns (some time_control)
      ≡ duration_to_game_type (estimate_game_duration base increment)
unfolding classify_game_type
clock_type patterns time_control base increment (parsed, filled, no_dash, no_days) =
    rw (filled, no_dash, no_days, parsed) refl

duration_to_game_type_mono :
    (a b : ℕ)
    → a ≤ b
    → game_type_code (duration_to_game_type a) ≤ game_type_code (duration_to_game_type b)
unfolding duration_to_game_type
duration_to_game_type_mono a b h = ground (arith, h)

duration_to_game_type_bound : (a : ℕ) → game_type_code (duration_to_game_type a) ≤ 4
unfolding duration_to_game_type
duration_to_game_type_bound a = ground arith

estimate_mono :
    (base base' increment increment' : ℕ)
    → base ≤ base'
    → increment ≤ increment'
    → estimate_game_duration base increment ≤ estimate_game_duration base' increment'
unfolding estimate_game_duration
estimate_mono base base' increment increment' h k = omega (arith, h, k)

-- Of two games that are played on a clock, the one with at least the base time and at least the increment of the
-- other is never called a faster type, and neither is called correspondence or unknown.
pub more_time_is_no_faster :
    (patterns : Patterns) (first second : String) (base increment base' increment' : ℕ)
    → IsClock patterns first base increment
    → IsClock patterns second base' increment'
    → base ≤ base'
    → increment ≤ increment'
    → (game_type_code (classify_game_type patterns (some first))
        ≤ game_type_code (classify_game_type patterns (some second)))
      × (game_type_code (classify_game_type patterns (some second)) ≤ 4)
more_time_is_no_faster patterns first second base increment base' increment' clock clock' h k =
    let shorter = estimate_game_duration base increment in
    let longer = estimate_game_duration base' increment' in
    rw
      (
        clock_type patterns first base increment clock,
        clock_type patterns second base' increment' clock',
      )
      (
        duration_to_game_type_mono shorter longer
            (estimate_mono base base' increment increment' h k),
        duration_to_game_type_bound longer,
      )
