-- ===== src/Tactics/Board.antt =====
-- What blunder_tutor/analysis/tactics.py asks of python-chess, as an interface, and its own data: pieces and
-- their values, patterns, motifs. A motif's description is kept as what it is made of.
use chess_blunder_trainer.Common.{
  ℕ, zero, suc, ◌+◌, ◌-◌, ◌/◌, ◌%◌, max, Bool, true, false, Option, none, some, List, [], ◌∷◌, not,
  if◌then◌else◌, ltb, nat_eq, ◌&&◌, ◌==◌,
}

pub data PieceType : Type 0 where
  pawn knight bishop rook queen king : PieceType

-- a piece; its color is True for white
pub record Piece : Type 0 where
  pub piece_type : PieceType
  pub color : Bool

pub record ChessMove : Type 0 where
  pub from_square : ℕ
  pub to_square : ℕ
  pub promotion : Option PieceType

-- `if move` fails for python-chess's null move, which goes from a1 to a1
abbrev pub is_null : ChessMove → Bool
is_null move =
    move.from_square == 0
    && move.to_square == 0
    && (elim move.promotion [ none ↦ true | some p ↦ false ])

-- A square is a number below 64; a set of squares (a bitboard) is its test. `push` copies the board and makes
-- the move.
pub record ChessBoard (B : Type 0) : Type 0 where
  pub piece_at : B → ℕ → Option Piece
  pub turn : B → Bool
  pub push : B → ChessMove → B
  pub attacks : B → ℕ → ℕ → Bool
  pub is_pinned : B → Bool → ℕ → Bool
  pub pin : B → Bool → ℕ → ℕ → Bool
  pub ray : ℕ → ℕ → ℕ → Bool
  pub is_check : B → Bool
  pub checkers : B → ℕ → Bool
  pub is_attacked_by : B → Bool → ℕ → Bool
  pub attackers : B → Bool → ℕ → ℕ → Bool
  pub king : B → Bool → Option ℕ

abbrev pub squares_from : ℕ → ℕ → List ℕ
squares_from first zero = []
squares_from first (suc n) = first ∷ squares_from (first + 1) n

-- chess.SQUARES
unfoldable pub squares : List ℕ
squares = squares_from 0 64

abbrev pub square_file : ℕ → ℕ
square_file sq = sq % 8

abbrev pub square_rank : ℕ → ℕ
square_rank sq = sq / 8

pub data TacticalPattern : Type 0 where
  no_pattern fork pin skewer discovered_attack discovered_check double_check : TacticalPattern
  back_rank_threat trapped_piece hanging_piece removal_of_defender overloaded_piece :
      TacticalPattern

abbrev pub pattern_code : TacticalPattern → ℕ
pattern_code no_pattern = 0
pattern_code fork = 1
pattern_code pin = 2
pattern_code skewer = 3
pattern_code discovered_attack = 4
pattern_code discovered_check = 5
pattern_code double_check = 6
pattern_code back_rank_threat = 7
pattern_code trapped_piece = 8
pattern_code hanging_piece = 9
pattern_code removal_of_defender = 10
pattern_code overloaded_piece = 11

-- the texts that a description is formatted from
pub data Description : Type 0 where
  royal_fork : Description
  fork_with_check : ℕ → Description
  fork_of : List PieceType → Description
  absolute_pin : PieceType → Description
  relative_pin : PieceType → PieceType → Description
  skewer_of : PieceType → PieceType → Description
  discovered_check_by : PieceType → Description
  discovered_attack_on : PieceType → Description
  double_check_given : Description
  hanging : PieceType → Description
  back_rank_mate_threat : Description

pub record TacticalMotif : Type 0 where
  pub pattern : TacticalPattern
  pub description : Description
  pub squares_of : List ℕ
  pub pieces : List PieceType
  pub material_gain : ℕ

-- PIECE_VALUES
abbrev pub piece_value : PieceType → ℕ
piece_value pawn = 100
piece_value knight = 320
piece_value bishop = 330
piece_value rook = 500
piece_value queen = 900
piece_value king = 20000

abbrev pub is_king : PieceType → Bool
is_king king = true
is_king p = false

abbrev pub is_queen : PieceType → Bool
is_queen queen = true
is_queen p = false

-- `piece_type in (chess.BISHOP, chess.ROOK, chess.QUEEN)`
abbrev pub is_slider : PieceType → Bool
is_slider bishop = true
is_slider rook = true
is_slider queen = true
is_slider p = false

-- `piece_type in (chess.ROOK, chess.QUEEN)`
abbrev pub is_heavy : PieceType → Bool
is_heavy rook = true
is_heavy queen = true
is_heavy p = false

abbrev pub same_color : Bool → Bool → Bool
same_color true c = c
same_color false c = not c

-- `piece and piece.color == color`: the piece, if it is there and of the color
abbrev pub of_color : Bool → Option Piece → Option Piece
of_color color none = none
of_color color (some p) = if same_color p.color color then some p else none

abbrev abs_difference : ℕ → ℕ → ℕ
abs_difference a b = if ltb a b then b - a else a - b

unfoldable pub square_distance : ℕ → ℕ → ℕ
square_distance a b =
    max (abs_difference (square_file a) (square_file b))
      (abs_difference (square_rank a) (square_rank b))
