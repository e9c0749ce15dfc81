-- ===== src/TimeControl/Examples.antt =====
-- Three minutes against ten minutes with an increment.
use chess_blunder_trainer.Common.{◌≤◌, ◌≡◌, refl, none, some, ◌==◌, string_eq, if◌then◌else◌, arith}
use chess_blunder_trainer.TimeControl.{
  rapid, game_type_code, Patterns, IsClock, parse_time_control, classify_game_type,
  duration_to_game_type, estimate_game_duration, more_time_is_no_faster,
}

abbrev patterns : Patterns
patterns = record {
  with_increment = λ text. if text == "600+5" then some (600, 5) else none;
  seconds_only = λ text. if text == "179" then some 179 else none;
  correspondence_pattern = λ text. none;
}

short-IsClock : IsClock patterns "179" 179 0
unfolding parse_time_control
short-IsClock = (refl, refl, refl, refl)

long-IsClock : IsClock patterns "600+5" 600 5
unfolding parse_time_control
long-IsClock = (refl, refl, refl, refl)

more_time_is_no_faster_example :
    (game_type_code (classify_game_type patterns (some "179"))
      ≤ game_type_code (classify_game_type patterns (some "600+5")))
    × (game_type_code (classify_game_type patterns (some "600+5")) ≤ 4)
more_time_is_no_faster_example =
    more_time_is_no_faster patterns "179" "600+5" 179 0 600 5 short-IsClock long-IsClock
      (omega arith) (omega arith)

ten_minutes : classify_game_type patterns (some "600+5") ≡ rapid
unfolding classify_game_type parse_time_control duration_to_game_type estimate_game_duration
ten_minutes = refl
