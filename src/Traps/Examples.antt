-- ===== src/Traps/Examples.antt =====
-- A game that enters two traps and springs one. A position is a number whose digits are the moves.
use chess_blunder_trainer.Common.{
  ℕ, ◌+◌, ◌*◌, ◌≡◌, refl, true, false, Option, none, some, List, [], ◌∷◌, ◌==◌, ◌||◌, nat_eq,
  string_eq, if◌then◌else◌, is_some, contains, add_key, All,
}
use chess_blunder_trainer.Common.Dict
use chess_blunder_trainer.Traps.{
  TrapDefinition, sprung, entered, TrapMatch, BoardReader, new_database, add_traps, add_positions,
  enter_each, trigger_each, scan_position, scan_moves, build_match, matched_ids, match_game,
}
use chess_blunder_trainer.Traps.Matched.{entry_ply, mistake_ply_of, matched_ids_exact}
use chess_blunder_trainer.Traps.Verdicts.{IsMatchOf, match_game-IsMatchOf}

abbrev digits : BoardReader ℕ ℕ
digits = record {
  zobrist_hash = λ position. position;
  san = λ position move. if move == 1 then "e4" else if move == 5 then "Nxe5" else "Nf6";
  push = λ position move. position * 10 + move;
}

abbrev traps : List TrapDefinition
traps =
    record {
      id = "legal";
      victim_side = "black";
      positions = record { entry_hash = 12; mistake_san = some "Nxe5" } ∷ [];
    }
    ∷ record {
      id = "quiet";
      victim_side = "white";
      positions = record { entry_hash = 125; mistake_san = none } ∷ [];
    }
    ∷ []

matched_ids_exact_example :
    let found = scan_moves digits (new_database traps) 0 (1 ∷ 2 ∷ 5 ∷ []) 0 ([], []) in
    (contains (matched_ids found) "legal"
      ≡ is_some (entry_ply digits traps "legal" 0 (1 ∷ 2 ∷ 5 ∷ []) 0)
        || is_some (mistake_ply_of digits traps "legal" 0 (1 ∷ 2 ∷ 5 ∷ []) 0))
    × (Dict.get found.0 "legal" ≡ entry_ply digits traps "legal" 0 (1 ∷ 2 ∷ 5 ∷ []) 0)
    × (Dict.get found.1 "legal" ≡ mistake_ply_of digits traps "legal" 0 (1 ∷ 2 ∷ 5 ∷ []) 0)
matched_ids_exact_example = matched_ids_exact digits traps 0 (1 ∷ 2 ∷ 5 ∷ []) "legal"

match_game-IsMatchOf_example :
    All
      (IsMatchOf digits traps 0 (1 ∷ 2 ∷ 5 ∷ []) false)
      (match_game digits (new_database traps) 0 (1 ∷ 2 ∷ 5 ∷ []) false)
match_game-IsMatchOf_example = match_game-IsMatchOf digits traps 0 (1 ∷ 2 ∷ 5 ∷ []) false

abbrev sprung_and_entered : List (Option TrapMatch)
sprung_and_entered =
    some (record {
      trap_id = "legal";
      match_type = sprung;
      user_was_victim = true;
      mistake_ply = some 3;
    })
    ∷ some (record {
      trap_id = "quiet";
      match_type = entered;
      user_was_victim = false;
      mistake_ply = none;
    })
    ∷ []

game_as_black : match_game digits (new_database traps) 0 (1 ∷ 2 ∷ 5 ∷ []) false ≡ sprung_and_entered
unfolding match_game scan_moves scan_position enter_each trigger_each new_database add_traps
    add_positions build_match Dict.get Dict.put contains add_key
game_as_black = refl
