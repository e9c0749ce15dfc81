-- ===== src/Tactics/Blunder.antt =====
-- What explains a blunder: `analyze_move_tactics`, `analyze_position_weaknesses` and
-- `classify_blunder_tactics` of blunder_tutor/analysis/tactics.py.
pub mod Explained
use chess_blunder_trainer.Common.{
  ℕ, Bool, true, false, Option, none, some, List, [], ◌∷◌, ◌++◌, not, ◌||◌, ◌&&◌, ◌==◌, nat_eq,
  if◌then◌else◌, ltb, keep,
}
use chess_blunder_trainer.Common.Search.{map_some, max_by, or_else}
use chess_blunder_trainer.Common.Sorting.{sort_desc}
use chess_blunder_trainer.Tactics.Board.{
  is_null, ChessMove, ChessBoard, Description, TacticalMotif, TacticalPattern, pattern_code,
  no_pattern,
}
use chess_blunder_trainer.Tactics.Fork.{detect_fork}
use chess_blunder_trainer.Tactics.Pins.{detect_pin}
use chess_blunder_trainer.Tactics.Lines.{detect_skewer, detect_discovered_attack}
use chess_blunder_trainer.Tactics.Threats.{
  detect_double_check, detect_hanging_piece, detect_back_rank_threat,
}

-- the parts of `blunder_reason`: an empty list is the text "Positional error or deep tactical oversight"
pub data Reason : Type 0 where
  missed allowed created : Description → Reason

pub record BlunderTactics : Type 0 where
  pub missed_tactic : Option TacticalMotif
  pub allowed_tactic : Option TacticalMotif
  pub blunder_reason : List Reason

abbrev gains : Option TacticalMotif → Bool
gains none = false
gains (some m) = ltb 0 m.material_gain

abbrev pattern_or : Option TacticalMotif → TacticalPattern → TacticalPattern
pattern_or none p = p
pattern_or (some m) p = m.pattern

unfoldable pub primary_pattern : BlunderTactics → TacticalPattern
primary_pattern t =
    if gains t.missed_tactic
    then pattern_or t.missed_tactic no_pattern
    else if gains t.allowed_tactic
    then pattern_or t.allowed_tactic no_pattern
    else pattern_or t.missed_tactic (pattern_or t.allowed_tactic no_pattern)

abbrev same_squares : List ℕ → List ℕ → Bool
same_squares [] [] = true
same_squares [] (y ∷ ys) = false
same_squares (x ∷ xs) [] = false
same_squares (x ∷ xs) (y ∷ ys) = x == y && same_squares xs ys

-- equality of the keys `(pattern, tuple(sorted(squares)))`; the order that both are sorted in is no matter
unfoldable pub same_weakness : TacticalMotif → TacticalMotif → Bool
same_weakness v w =
    pattern_code v.pattern == pattern_code w.pattern
    && same_squares (sort_desc v.squares_of) (sort_desc w.squares_of)

unfoldable pub pre_existing : List TacticalMotif → TacticalMotif → Bool
pre_existing [] w = false
pre_existing (v ∷ before) w = same_weakness v w || pre_existing before w

unfoldable pub new_weaknesses : List TacticalMotif → List TacticalMotif → List TacticalMotif
new_weaknesses before after = keep (λ w. not (pre_existing before w)) after

abbrev greatest : List TacticalMotif → Option TacticalMotif
greatest [] = none
greatest (t ∷ ts) = some (max_by (λ (m : TacticalMotif). m.material_gain) t ts)

abbrev pub reason_of : (Description → Reason) → Option TacticalMotif → List Reason
reason_of r none = []
reason_of r (some m) = r m.description ∷ []

module _ {B : Type 0} ⦃chess : ChessBoard B⦄ where
  -- _MOVE_DETECTORS
  abbrev pub move_detectors : List (B → ChessMove → Option TacticalMotif)
  move_detectors =
      detect_fork ∷ detect_skewer ∷ detect_discovered_attack ∷ detect_double_check
      ∷ detect_back_rank_threat ∷ []

  unfoldable pub analyze_move_tactics : B → ChessMove → Option TacticalMotif
  analyze_move_tactics board move = greatest (
      map_some (λ (detector : B → ChessMove → Option TacticalMotif). detector board move)
        move_detectors)

  unfoldable pub analyze_position_weaknesses : B → Bool → List TacticalMotif
  analyze_position_weaknesses board color =
      detect_hanging_piece board color ++ detect_pin board color

  unfoldable pub missed_tactic_of : B → Option ChessMove → Option TacticalMotif
  missed_tactic_of board none = none
  missed_tactic_of board (some best_move) =
      if is_null best_move then none else analyze_move_tactics board best_move

  -- the part of `_attach_allowed_tactic` for no reply
  unfoldable pub attach_new_weakness : BlunderTactics → B → B → Bool → BlunderTactics
  attach_new_weakness result board_before board_after_blunder player_color =
      let worst = greatest (
        new_weaknesses (analyze_position_weaknesses board_before player_color)
          (analyze_position_weaknesses board_after_blunder player_color)) in
      record result {
        allowed_tactic = or_else worst result.allowed_tactic;
        blunder_reason = result.blunder_reason ++ reason_of created worst;
      }

  unfoldable pub attach_allowed_tactic :
      BlunderTactics → B → B → Option ChessMove → Bool → BlunderTactics
  attach_allowed_tactic result board_before board_after_blunder (some opponent_reply) player_color =
      let found = analyze_move_tactics board_after_blunder opponent_reply in
      if is_null opponent_reply
      then attach_new_weakness result board_before board_after_blunder player_color
      else record result {
        allowed_tactic = or_else found result.allowed_tactic;
        blunder_reason = result.blunder_reason ++ reason_of allowed found;
      }
  attach_allowed_tactic result board_before board_after_blunder none player_color =
      attach_new_weakness result board_before board_after_blunder player_color

  unfoldable pub classify_blunder_tactics :
      B → ChessMove → Option ChessMove → Option ChessMove → BlunderTactics
  classify_blunder_tactics board_before blunder_move best_move opponent_reply =
      let found = missed_tactic_of board_before best_move in
      let result : BlunderTactics = record {
        missed_tactic = found;
        allowed_tactic = none;
        blunder_reason = reason_of missed found;
      } in
      attach_allowed_tactic result board_before (chess.push board_before blunder_move)
        opponent_reply (chess.turn board_before)
