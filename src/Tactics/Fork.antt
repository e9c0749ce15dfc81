-- ===== src/Tactics/Fork.antt =====
-- Forks: `detect_fork` of blunder_tutor/analysis/tactics.py and its helpers.
pub mod Targets
use chess_blunder_trainer.Common.{
  ℕ, Bool, true, false, Option, none, some, List, [], ◌∷◌, not, ◌||◌, ◌&&◌, if◌then◌else◌, ltb, leb,
  keep, map, take, length,
}
use chess_blunder_trainer.Common.Search.{and_then, when, map_some}
use chess_blunder_trainer.Common.Sorting.{sort_desc, second_or_first}
use chess_blunder_trainer.Tactics.Board.{
  PieceType, Piece, ChessMove, ChessBoard, squares, fork, Description, royal_fork, fork_with_check,
  fork_of, TacticalMotif, piece_value, is_king, is_queen, of_color,
}

pub record Target : Type 0 where
  pub square : ℕ
  pub piece_type : PieceType
  pub value : ℕ

abbrev has_king : List Target → Bool
has_king [] = false
has_king (t ∷ ts) = is_king t.piece_type || has_king ts

abbrev has_queen : List Target → Bool
has_queen [] = false
has_queen (t ∷ ts) = is_queen t.piece_type || has_queen ts

unfoldable pub fork_description : List Target → Description
fork_description targets =
    if has_king targets && has_queen targets
    then royal_fork
    else if has_king targets
    then fork_with_check (length targets)
    else fork_of (map (λ (t : Target). t.piece_type) (take 2 targets))

unfoldable pub filter_fork_targets : List Target → ℕ → List Target
filter_fork_targets attacked attacker_value =
    keep (λ (t : Target). leb attacker_value t.value || is_king t.piece_type) attacked

unfoldable pub build_fork_motif : List Target → ℕ → TacticalMotif
build_fork_motif targets attack_sq = record {
  pattern = fork;
  description = fork_description targets;
  squares_of = attack_sq ∷ map (λ (t : Target). t.square) targets;
  pieces = map (λ (t : Target). t.piece_type) targets;
  material_gain = second_or_first (sort_desc (map (λ (t : Target). t.value) targets));
}

module _ {B : Type 0} ⦃chess : ChessBoard B⦄ where
  unfoldable pub target_at : B → ℕ → Bool → ℕ → ℕ → Option Target
  target_at board attacker_square attacker_color min_value sq =
      when (chess.attacks board attacker_square sq) (
        and_then (of_color (not attacker_color) (chess.piece_at board sq)) (λ (p : Piece).
          when (leb min_value (piece_value p.piece_type)) (
            some (record {
              square = sq;
              piece_type = p.piece_type;
              value = piece_value p.piece_type;
            }))))

  unfoldable pub count_attacked_valuable_pieces : B → ℕ → Bool → ℕ → List Target
  count_attacked_valuable_pieces board attacker_square attacker_color min_value =
      map_some (target_at board attacker_square attacker_color min_value) squares

  -- what `detect_fork` does once the moving piece is there
  unfoldable pub fork_by : B → ChessMove → Piece → Option TacticalMotif
  fork_by board move moving_piece =
      let attacked =
        count_attacked_valuable_pieces (chess.push board move) move.to_square moving_piece.color
          0 in
      let targets = filter_fork_targets attacked (piece_value moving_piece.piece_type) in
      if ltb (length targets) 2 then none else some (build_fork_motif targets move.to_square)

  unfoldable pub detect_fork : B → ChessMove → Option TacticalMotif
  detect_fork board move = and_then (chess.piece_at board move.from_square) (fork_by board move)
