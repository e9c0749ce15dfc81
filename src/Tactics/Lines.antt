-- ===== src/Tactics/Lines.antt =====
-- Skewers and discovered attacks: `detect_skewer` and `detect_discovered_attack` of
-- blunder_tutor/analysis/tactics.py and their helpers.
pub mod Found
use chess_blunder_trainer.Common.{
  ℕ, Bool, true, false, Option, none, some, List, [], ◌∷◌, not, ◌||◌, ◌&&◌, ◌==◌, nat_eq,
  if◌then◌else◌, leb, is_some,
}
use chess_blunder_trainer.Common.Search.{and_then, when, first_some}
use chess_blunder_trainer.Tactics.Board.{
  PieceType, Piece, ChessMove, ChessBoard, squares, skewer, discovered_attack, discovered_check,
  skewer_of, discovered_check_by, discovered_attack_on, TacticalMotif, piece_value, is_king,
  is_queen, is_slider, is_heavy, of_color, square_distance,
}
use chess_blunder_trainer.Tactics.Pins.{any_square}

unfoldable pub skewer_motif : ℕ → ℕ → Piece → ℕ → Piece → TacticalMotif
skewer_motif attack_origin front_sq front_piece behind_sq behind = record {
  pattern = skewer;
  description = skewer_of front_piece.piece_type behind.piece_type;
  squares_of = attack_origin ∷ front_sq ∷ behind_sq ∷ [];
  pieces = front_piece.piece_type ∷ behind.piece_type ∷ [];
  material_gain = piece_value behind.piece_type;
}

unfoldable pub build_discovered_motif : ℕ → Piece → ℕ → ℕ → Piece → Option TacticalMotif
build_discovered_motif attacker_sq attacker_piece move_from target_sq target_piece =
    let target_value = piece_value target_piece.piece_type in
    if is_king target_piece.piece_type
    then some (record {
      pattern = discovered_check;
      description = discovered_check_by attacker_piece.piece_type;
      squares_of = attacker_sq ∷ move_from ∷ target_sq ∷ [];
      pieces = attacker_piece.piece_type ∷ [];
      material_gain = target_value;
    })
    else if leb 300 target_value
    then some (record {
      pattern = discovered_attack;
      description = discovered_attack_on target_piece.piece_type;
      squares_of = attacker_sq ∷ move_from ∷ target_sq ∷ [];
      pieces = attacker_piece.piece_type ∷ target_piece.piece_type ∷ [];
      material_gain = target_value;
    })
    else none

abbrev is_potential_discoverer : Option Piece → Bool → ℕ → ℕ → Bool
is_potential_discoverer none attacker_color sq move_to = false
is_potential_discoverer (some p) attacker_color sq move_to =
    if not (is_some (of_color attacker_color (some p)))
    then false
    else if sq == move_to
    then false
    else is_slider p.piece_type

module _ {B : Type 0} ⦃chess : ChessBoard B⦄ where
  unfoldable pub is_skewer_behind : B → ℕ → ℕ → ℕ → (ℕ → Bool) → ℕ → Bool → Bool
  is_skewer_behind board_after behind_sq attack_origin front_sq ray front_dist enemy_color =
      if behind_sq == front_sq || behind_sq == attack_origin
      then false
      else if not (ray behind_sq)
      then false
      else if leb (square_distance attack_origin behind_sq) front_dist
      then false
      else is_some (of_color enemy_color (chess.piece_at board_after behind_sq))

  unfoldable pub find_skewer_behind : B → ℕ → ℕ → Bool → Option ℕ
  find_skewer_behind board_after attack_origin front_sq enemy_color =
      let ray = chess.ray attack_origin front_sq in
      let front_dist = square_distance attack_origin front_sq in
      first_some
        (λ behind_sq.
          when
            (is_skewer_behind board_after behind_sq attack_origin front_sq ray front_dist
              enemy_color)
            (some behind_sq))
        squares

  unfoldable pub try_skewer : B → ℕ → ℕ → Piece → Bool → Option TacticalMotif
  try_skewer board_after attack_origin front_sq front_piece enemy_color =
      when (is_king front_piece.piece_type || is_heavy front_piece.piece_type) (
        and_then (find_skewer_behind board_after attack_origin front_sq enemy_color)
          (λ (behind_sq : ℕ). and_then (chess.piece_at board_after behind_sq) (λ (behind : Piece).
            when (not (leb (piece_value front_piece.piece_type) (piece_value behind.piece_type)))
              (some (skewer_motif attack_origin front_sq front_piece behind_sq behind)))))

  -- one round of the loop of `detect_skewer`
  unfoldable pub skewer_at : B → ℕ → Bool → ℕ → Option TacticalMotif
  skewer_at board_after attack_origin enemy_color sq =
      when (chess.attacks board_after attack_origin sq) (
        and_then (of_color enemy_color (chess.piece_at board_after sq)) (λ (front_piece : Piece).
          try_skewer board_after attack_origin sq front_piece enemy_color))

  unfoldable pub detect_skewer : B → ChessMove → Option TacticalMotif
  detect_skewer board move =
      and_then (chess.piece_at board move.from_square) (λ (moving_piece : Piece).
        when (is_slider moving_piece.piece_type) (
          first_some (skewer_at (chess.push board move) move.to_square (not moving_piece.color))
            squares))

  -- one round of the loop of `_try_discovered_attack`
  unfoldable pub discovered_at : B → B → ℕ → Piece → ChessMove → Bool → ℕ → Option TacticalMotif
  discovered_at board board_after attacker_sq attacker_piece move enemy_color target_sq =
      when
        (chess.attacks board_after attacker_sq target_sq
          && not (chess.attacks board attacker_sq target_sq))
        (and_then (of_color enemy_color (chess.piece_at board_after target_sq)) (λ (target : Piece).
          build_discovered_motif attacker_sq attacker_piece move.from_square target_sq target))

  unfoldable pub try_discovered_attack : B → B → ℕ → Piece → ChessMove → Bool → Option TacticalMotif
  try_discovered_attack board board_after attacker_sq attacker_piece move enemy_color =
      when (any_square (chess.ray attacker_sq move.from_square) squares) (
        first_some (discovered_at board board_after attacker_sq attacker_piece move enemy_color)
          squares)

  -- one round of the loop of `detect_discovered_attack`
  unfoldable pub discoverer_at : B → ChessMove → Piece → ℕ → Option TacticalMotif
  discoverer_at board move moving_piece attacker_sq =
      when
        (is_potential_discoverer (chess.piece_at board attacker_sq) moving_piece.color attacker_sq
          move.to_square)
        (and_then (chess.piece_at board attacker_sq) (λ (attacker : Piece).
          try_discovered_attack board (chess.push board move) attacker_sq attacker move
            (not moving_piece.color)))

  unfoldable pub detect_discovered_attack : B → ChessMove → Option TacticalMotif
  detect_discovered_attack board move =
      and_then (chess.piece_at board move.from_square)
        (λ (moving_piece : Piece). first_some (discoverer_at board move moving_piece) squares)
