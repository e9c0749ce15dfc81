-- ===== src/Tactics/Threats.antt =====
-- Double checks, hanging pieces and back rank mates: detectors of blunder_tutor/analysis/tactics.py.
use chess_blunder_trainer.Common.{
  ℕ, Bool, true, false, Option, some, List, [], ◌∷◌, not, ◌&&◌, ◌==◌, nat_eq, if◌then◌else◌, ltb,
  is_some, keep, length,
}
use chess_blunder_trainer.Common.Search.{and_then, when, map_some}
use chess_blunder_trainer.Tactics.Board.{
  king, Piece, ChessMove, ChessBoard, squares, square_rank, double_check, hanging_piece,
  back_rank_threat, double_check_given, hanging, back_rank_mate_threat, TacticalMotif, piece_value,
  is_king, is_heavy, of_color,
}
use chess_blunder_trainer.Tactics.Pins.{any_square}

unfoldable pub hanging_motif : ℕ → Piece → TacticalMotif
hanging_motif sq piece = record {
  pattern = hanging_piece;
  description = hanging piece.piece_type;
  squares_of = sq ∷ [];
  pieces = piece.piece_type ∷ [];
  material_gain = piece_value piece.piece_type;
}

module _ {B : Type 0} ⦃chess : ChessBoard B⦄ where
  unfoldable pub detect_double_check : B → ChessMove → Option TacticalMotif
  detect_double_check board move =
      let board_after = chess.push board move in
      let checker_squares = keep (chess.checkers board_after) squares in
      when (chess.is_check board_after && not (ltb (length checker_squares) 2)) (
        some (record {
          pattern = double_check;
          description = double_check_given;
          squares_of = checker_squares;
          pieces = [];
          material_gain = 500;
        }))

  -- one round of the comprehension, over what `_iter_friendly_pieces` yields
  unfoldable pub hanging_at : B → Bool → ℕ → Option TacticalMotif
  hanging_at board color sq =
      and_then (of_color color (chess.piece_at board sq)) (λ (piece : Piece).
        when
          (not (is_king piece.piece_type)
            && chess.is_attacked_by board (not color) sq
            && not (any_square (chess.attackers board color sq) squares))
          (some (hanging_motif sq piece)))

  unfoldable pub detect_hanging_piece : B → Bool → List TacticalMotif
  detect_hanging_piece board color = map_some (hanging_at board color) squares

  unfoldable pub has_king_escape : B → ℕ → Bool → Bool → List ℕ → Bool
  has_king_escape board_after enemy_king_sq enemy_color attacker_color [] = false
  has_king_escape board_after enemy_king_sq enemy_color attacker_color (sq ∷ sqs) =
      let rest = has_king_escape board_after enemy_king_sq enemy_color attacker_color sqs in
      if not (chess.attacks board_after enemy_king_sq sq)
      then rest
      else if is_some (of_color enemy_color (chess.piece_at board_after sq))
      then rest
      else if not (chess.is_attacked_by board_after attacker_color sq)
      then true
      else rest

  unfoldable pub is_back_rank_mate : B → ChessMove → ℕ → Bool → Bool → ℕ → Bool
  is_back_rank_mate board_after move enemy_king_sq enemy_color attacker_color back_rank =
      if not (chess.is_check board_after)
      then false
      else if not (square_rank enemy_king_sq == back_rank)
      then false
      else if not (square_rank move.to_square == back_rank)
      then false
      else not (has_king_escape board_after enemy_king_sq enemy_color attacker_color squares)

  unfoldable pub detect_back_rank_threat : B → ChessMove → Option TacticalMotif
  detect_back_rank_threat board move =
      and_then (chess.piece_at board move.from_square) (λ (moving_piece : Piece).
        when (is_heavy moving_piece.piece_type) (
          let board_after = chess.push board move in
          let enemy_color = not moving_piece.color in
          let back_rank = if not enemy_color then 7 else 0 in
          and_then (chess.king board_after enemy_color) (λ (enemy_king_sq : ℕ).
            when
              (is_back_rank_mate board_after move enemy_king_sq enemy_color moving_piece.color
                back_rank)
              (some (record {
                pattern = back_rank_threat;
                description = back_rank_mate_threat;
                squares_of = move.to_square ∷ enemy_king_sq ∷ [];
                pieces = king ∷ [];
                material_gain = 10000;
              })))))
