-- ===== src/Moves/Phase.antt =====
-- blunder_tutor/analysis/phase.py and its pipeline step, steps/phase.py. Of a board the step reads the number of
-- pieces, whose turn it is and the full move number; pushing a move is python-chess's.
use chess_blunder_trainer.Common.{
  ℕ, ◌+◌, ◌-◌, ◌*◌, ◌≤◌, Bool, List, [], ◌∷◌, ◌&&◌, if◌then◌else◌, leb, ltb, arith,
}

abbrev pub king_count : ℕ
king_count = 2

pub data GamePhase : Type 0 where
  opening middlegame endgame : GamePhase

-- PHASE_OPENING, PHASE_MIDDLEGAME, PHASE_ENDGAME
abbrev pub phase_code : GamePhase → ℕ
phase_code opening = 0
phase_code middlegame = 1
phase_code endgame = 2

-- `pieces` is `len(board.piece_map())`: a board always has its two kings
unfoldable pub classify_phase : ℕ → ℕ → GamePhase
classify_phase pieces move_number =
    let piece_count = pieces - king_count in
    if leb move_number 10 && leb 20 piece_count
    then opening
    else if leb move_number 15 && leb 16 piece_count
    then opening
    else if leb piece_count 6
    then endgame
    else if leb piece_count 10 && ltb 30 move_number
    then endgame
    else middlegame

pub record BoardReader (B M : Type 0) : Type 0 where
  pub pieces : B → ℕ
  pub white_to_move : B → Bool
  pub fullmove_number : B → ℕ
  pub push : B → M → B

pub record PhaseEntry : Type 0 where
  pub ply : ℕ
  pub move_number : ℕ
  pub phase : GamePhase

module _ {B M : Type 0} (reader : BoardReader B M) where
  -- `(board.fullmove_number - 1) * 2 + (1 if board.turn == chess.WHITE else 2)`
  unfoldable pub ply_of : B → ℕ
  ply_of board =
      (reader.fullmove_number board - 1) * 2 + (if reader.white_to_move board then 1 else 2)

  unfoldable pub iter_moves_with_board : B → ℕ → List M → List (ℕ × ℕ × B)
  iter_moves_with_board board move_number [] = []
  iter_moves_with_board board move_number (move ∷ moves) =
      let after = reader.push board move in
      (ply_of board, move_number, board)
      ∷ iter_moves_with_board after
          (if reader.white_to_move after then move_number + 1 else move_number) moves

  abbrev pub phase_entries : List (ℕ × ℕ × B) → List PhaseEntry
  phase_entries [] = []
  phase_entries ((ply, move_number, board) ∷ rest) =
      record {
        ply = ply;
        move_number = move_number;
        phase = classify_phase (reader.pieces board) move_number;
      }
      ∷ phase_entries rest

  -- `PhaseClassifyStep.execute`, its `phases`
  unfoldable pub phases : B → List M → List PhaseEntry
  phases board moves = phase_entries (iter_moves_with_board board 1 moves)

pub classify_phase_mono :
    (p q n k : ℕ)
    → q ≤ p
    → n ≤ k
    → phase_code (classify_phase p n) ≤ phase_code (classify_phase q k)
unfolding classify_phase
classify_phase_mono p q n k fewer later = ground (arith, fewer, later)

-- the phase codes of a game's entries never fall, from a first bound on
abbrev pub Rising : ℕ → List PhaseEntry → Type 0
Rising low [] = Unit
Rising low (e ∷ es) = (low ≤ phase_code e.phase) × Rising (phase_code e.phase) es

module _ {B M : Type 0} (reader : BoardReader B M)
    (fewer : (board : B) (move : M)
      → reader.pieces (reader.push board move) ≤ reader.pieces board) where
  phase_entries-Rising :
      (low : ℕ) (board : B) (n : ℕ) (moves : List M)
      → low ≤ phase_code (classify_phase (reader.pieces board) n)
      → Rising low (phase_entries reader (iter_moves_with_board reader board n moves))
  unfolding iter_moves_with_board
  phase_entries-Rising low board n [] h = tt
  phase_entries-Rising low board n (move ∷ moves) h =
      let after = reader.push board move in
      let n' = if reader.white_to_move after then n + 1 else n in
      (
        h,
        phase_entries-Rising (phase_code (classify_phase (reader.pieces board) n)) after n' moves (
            classify_phase_mono (reader.pieces board) (reader.pieces after) n n' (fewer board move)
              (ground arith)),
      )

  -- When no move adds a piece to the board, the phase of a game never goes back: each entry's phase is the phase
  -- of the entry before it or a later one.
  pub phases-Rising : (board : B) (moves : List M) → Rising 0 (phases reader board moves)
  unfolding phases
  phases-Rising board moves = phase_entries-Rising 0 board 1 moves (omega arith)
