-- ===== src/Tactics/Pins.antt =====
-- Pins: `detect_pin` of blunder_tutor/analysis/tactics.py and its helpers.
pub mod Relative
use chess_blunder_trainer.Common.{
  ℕ, Bool, true, false, Option, none, some, List, [], ◌∷◌, ◌++◌, not, ◌||◌, ◌&&◌, ◌==◌, nat_eq,
  if◌then◌else◌, leb, is_some, contains,
}
use chess_blunder_trainer.Common.Search.{and_then, when, first_some, map_some}
use chess_blunder_trainer.Tactics.Board.{
  PieceType, Piece, ChessMove, ChessBoard, squares, pin, absolute_pin, relative_pin, TacticalMotif,
  piece_value, is_king, is_slider, of_color, square_distance,
}

-- the truth of a bitboard
unfoldable pub any_square : (ℕ → Bool) → List ℕ → Bool
any_square mask [] = false
any_square mask (sq ∷ sqs) = mask sq || any_square mask sqs

unfoldable pub absolute_pin_motif : ℕ → Piece → ℕ → TacticalMotif
absolute_pin_motif sq piece pinner_sq = record {
  pattern = pin;
  description = absolute_pin piece.piece_type;
  squares_of = sq ∷ pinner_sq ∷ [];
  pieces = piece.piece_type ∷ [];
  material_gain = piece_value piece.piece_type;
}

unfoldable pub relative_pin_motif : ℕ → Piece → ℕ → ℕ → Piece → TacticalMotif
relative_pin_motif target_sq target attacker_sq behind_sq behind = record {
  pattern = pin;
  description = relative_pin target.piece_type behind.piece_type;
  squares_of = target_sq ∷ attacker_sq ∷ behind_sq ∷ [];
  pieces = target.piece_type ∷ behind.piece_type ∷ [];
  material_gain = piece_value target.piece_type;
}

unfoldable pub is_duplicate_pin : List TacticalMotif → ℕ → ℕ → Bool
is_duplicate_pin [] target_sq attacker_sq = false
is_duplicate_pin (p ∷ pins) target_sq attacker_sq =
    contains p.squares_of target_sq && contains p.squares_of attacker_sq
    || is_duplicate_pin pins target_sq attacker_sq

abbrev is_pinning_attacker : Option Piece → Bool → Bool
is_pinning_attacker none enemy_color = false
is_pinning_attacker (some p) enemy_color =
    is_some (of_color enemy_color (some p)) && is_slider p.piece_type

abbrev is_no_king : Option Piece → Bool
is_no_king none = false
is_no_king (some p) = not (is_king p.piece_type)

abbrev pub append_some : List TacticalMotif → Option TacticalMotif → List TacticalMotif
append_some pins none = pins
append_some pins (some m) = pins ++ m ∷ []

module _ {B : Type 0} ⦃chess : ChessBoard B⦄ where
  unfoldable pub find_pinner : B → (ℕ → Bool) → Bool → Option ℕ
  find_pinner board pin_mask enemy_color =
      first_some
        (λ sq.
          when (pin_mask sq)
            (and_then (of_color enemy_color (chess.piece_at board sq)) (λ (p : Piece). some sq)))
        squares

  unfoldable pub absolute_pin_at : B → Bool → ℕ → Option TacticalMotif
  absolute_pin_at board color sq =
      and_then (of_color color (chess.piece_at board sq)) (λ (piece : Piece).
        when (chess.is_pinned board color sq) (
          and_then (find_pinner board (chess.pin board color sq) (not color))
            (λ (pinner_sq : ℕ). some (absolute_pin_motif sq piece pinner_sq))))

  unfoldable pub detect_absolute_pins : B → Bool → List TacticalMotif
  detect_absolute_pins board color = map_some (absolute_pin_at board color) squares

  unfoldable pub is_pin_behind : B → ℕ → ℕ → ℕ → (ℕ → Bool) → ℕ → Bool → Bool
  is_pin_behind board behind_sq attacker_sq target_sq ray target_dist color =
      if behind_sq == attacker_sq || behind_sq == target_sq
      then false
      else if not (ray behind_sq)
      then false
      else if leb (square_distance attacker_sq behind_sq) target_dist
      then false
      else is_no_king (of_color color (chess.piece_at board behind_sq))

  unfoldable pub find_relative_pin_behind : B → ℕ → ℕ → Bool → Option ℕ
  find_relative_pin_behind board attacker_sq target_sq color =
      let ray = chess.ray attacker_sq target_sq in
      let target_dist = square_distance attacker_sq target_sq in
      when (any_square ray squares) (
        first_some
          (λ behind_sq.
            when (is_pin_behind board behind_sq attacker_sq target_sq ray target_dist color)
              (some behind_sq))
          squares)

  unfoldable pub try_relative_pin :
      B → ℕ → ℕ → Piece → Bool → List TacticalMotif → Option TacticalMotif
  try_relative_pin board attacker_sq target_sq target color existing_pins =
      and_then (find_relative_pin_behind board attacker_sq target_sq color) (λ (behind_sq : ℕ).
        and_then (chess.piece_at board behind_sq) (λ (behind : Piece).
          when (not (leb (piece_value behind.piece_type) (piece_value target.piece_type))) (
            when (not (is_duplicate_pin existing_pins target_sq attacker_sq))
              (some (relative_pin_motif target_sq target attacker_sq behind_sq behind)))))

  -- one round of the loop of `_scan_pinner_targets`
  unfoldable pub pin_through : B → ℕ → Bool → List TacticalMotif → ℕ → Option TacticalMotif
  pin_through board attacker_sq color pins target_sq =
      when (chess.attacks board attacker_sq target_sq) (
        and_then (of_color color (chess.piece_at board target_sq))
          (λ (target : Piece). try_relative_pin board attacker_sq target_sq target color pins))

  -- `_scan_pinner_targets`, over the target squares that are left
  unfoldable pub scan_pinner_targets :
      B → ℕ → Bool → List ℕ → List TacticalMotif → List TacticalMotif
  scan_pinner_targets board attacker_sq color [] pins = pins
  scan_pinner_targets board attacker_sq color (target_sq ∷ rest) pins =
      scan_pinner_targets board attacker_sq color rest
        (append_some pins (pin_through board attacker_sq color pins target_sq))

  unfoldable pub scan_attackers : B → Bool → List ℕ → List TacticalMotif → List TacticalMotif
  scan_attackers board color [] pins = pins
  scan_attackers board color (attacker_sq ∷ rest) pins = scan_attackers board color rest (
      if is_pinning_attacker (chess.piece_at board attacker_sq) (not color)
      then scan_pinner_targets board attacker_sq color squares pins
      else pins)

  unfoldable pub detect_relative_pins : B → Bool → List TacticalMotif
  detect_relative_pins board color = scan_attackers board color squares []

  unfoldable pub detect_pin : B → Bool → List TacticalMotif
  detect_pin board color = detect_absolute_pins board color ++ detect_relative_pins board color
