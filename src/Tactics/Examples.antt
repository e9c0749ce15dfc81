-- ===== src/Tactics/Examples.antt =====
-- A position in which a knight leaves the file of its rook with a fork: a rook on a1, a knight on a2 that goes to
-- c3, against a king on a4 and a queen on e4.
use chess_blunder_trainer.Common.{
  ℕ, ◌≡◌, ◌≤◌, refl, Bool, true, false, Option, none, some, List, [], ◌∷◌, ◌++◌, ◌&&◌, ◌==◌, nat_eq,
  contains, map, length, leb, is_some, if◌then◌else◌, All, not, eq_refl,
}
use chess_blunder_trainer.Common.Search.{first_some}
use chess_blunder_trainer.Tactics.Board.{
  rook, knight, king, queen, Piece, ChessMove, ChessBoard, TacticalMotif, squares, discovered_check,
  discovered_check_by,
}
use chess_blunder_trainer.Tactics.Fork.{detect_fork}
use chess_blunder_trainer.Tactics.Fork.Targets.{fork_squares, worth_on, IsForkOf, detect_fork_exact}
use chess_blunder_trainer.Tactics.Pins.{any_square, detect_relative_pins}
use chess_blunder_trainer.Tactics.Pins.Relative.{ArePins, detect_relative_pins-ArePins}
use chess_blunder_trainer.Tactics.Lines.{
  detect_discovered_attack, discoverer_at, try_discovered_attack, discovered_at,
  build_discovered_motif,
}
use chess_blunder_trainer.Tactics.Lines.Found.{IsDiscovery, detect_discovered_attack-IsDiscovery}
use chess_blunder_trainer.Tactics.Blunder.{
  missed, created, reason_of, move_detectors, analyze_move_tactics, analyze_position_weaknesses,
  missed_tactic_of, classify_blunder_tactics,
}
use chess_blunder_trainer.Tactics.Blunder.Explained.{
  FoundBy, IsWorstNew, analyze_move_tactics_greatest, classify_blunder_tactics_without_reply,
}

abbrev white_rook : Piece
white_rook = record { piece_type = rook; color = true }

abbrev white_knight : Piece
white_knight = record { piece_type = knight; color = true }

abbrev a_file : List ℕ
a_file = 0 ∷ 8 ∷ 16 ∷ 24 ∷ 32 ∷ 40 ∷ 48 ∷ 56 ∷ []

-- whether the knight has moved is all that the board tells
abbrev stands_on : Bool → ℕ → Option Piece
stands_on moved sq =
    if sq == 0
    then some white_rook
    else if sq == (if moved then 18 else 8)
    then some white_knight
    else if sq == 24
    then some (record { piece_type = king; color = false })
    else if sq == 28
    then some (record { piece_type = queen; color = false })
    else none

abbrev attacked_from : Bool → ℕ → List ℕ
attacked_from moved sq =
    if sq == 0
    then (if moved then 8 ∷ 16 ∷ 24 ∷ [] else 8 ∷ [])
    else if sq == 18
    then 1 ∷ 3 ∷ 8 ∷ 12 ∷ 24 ∷ 28 ∷ 33 ∷ 35 ∷ []
    else []

instance abbrev board : ChessBoard Bool
board = record {
  piece_at = stands_on;
  turn = λ b. true;
  push = λ b move. true;
  attacks = λ b from to. contains (attacked_from b from) to;
  is_pinned = λ b color sq. false;
  pin = λ b color sq other. false;
  ray = λ a b sq. not (a == b) && contains a_file a && contains a_file b && contains a_file sq;
  is_check = λ b. b;
  checkers = λ b sq. b && contains (0 ∷ 18 ∷ []) sq;
  is_attacked_by = λ b color sq. false;
  attackers = λ b color sq other. false;
  king = λ b color. some 24;
}

abbrev knight_to_c3 : ChessMove
knight_to_c3 = record { from_square = 8; to_square = 18; promotion = none }

detect_fork_exact_example :
    let targets = fork_squares false knight_to_c3 white_knight in
    (is_some (detect_fork false knight_to_c3) ≡ leb 2 (length targets))
    × ((m : TacticalMotif)
        → detect_fork false knight_to_c3 ≡ some m
        → IsForkOf 18 targets (map (worth_on true) targets) m)
detect_fork_exact_example = detect_fork_exact false knight_to_c3 white_knight refl

detect_relative_pins-ArePins_example : ArePins false true (detect_relative_pins false true)
detect_relative_pins-ArePins_example = detect_relative_pins-ArePins false true

abbrev check_from_a1 : TacticalMotif
check_from_a1 = record {
  pattern = discovered_check;
  description = discovered_check_by rook;
  squares_of = 0 ∷ 8 ∷ 24 ∷ [];
  pieces = rook ∷ [];
  material_gain = 20000;
}

gives_check : detect_discovered_attack false knight_to_c3 ≡ some check_from_a1
unfolding detect_discovered_attack discoverer_at try_discovered_attack discovered_at
    build_discovered_motif first_some squares any_square contains
gives_check = refl

no_own_ray : (sq : ℕ) → any_square (board.ray sq sq) squares ≡ false
unfolding any_square squares
no_own_ray sq = let same : (sq == sq) ≡ true = eq_refl sq in rw same refl

detect_discovered_attack-IsDiscovery_example :
    IsDiscovery false knight_to_c3 white_knight check_from_a1
detect_discovered_attack-IsDiscovery_example =
    detect_discovered_attack-IsDiscovery false knight_to_c3 white_knight check_from_a1 no_own_ray
      refl gives_check

analyze_move_tactics_greatest_example :
    ((m : TacticalMotif)
      → analyze_move_tactics false knight_to_c3 ≡ some m
      → FoundBy false knight_to_c3 move_detectors m)
    × All
        (λ (d : Bool → ChessMove → Option TacticalMotif).
          (t : TacticalMotif)
          → d false knight_to_c3 ≡ some t
          → (m : TacticalMotif) × (analyze_move_tactics false knight_to_c3 ≡ some m)
            × (t.material_gain ≤ m.material_gain))
        move_detectors
analyze_move_tactics_greatest_example = analyze_move_tactics_greatest false knight_to_c3

classify_blunder_tactics_without_reply_example :
    let r = classify_blunder_tactics false knight_to_c3 (some knight_to_c3) none in
    IsWorstNew
      (analyze_position_weaknesses false true)
      (analyze_position_weaknesses true true)
      r.allowed_tactic
    × (r.missed_tactic ≡ missed_tactic_of false (some knight_to_c3))
    × (r.blunder_reason ≡ reason_of missed r.missed_tactic ++ reason_of created r.allowed_tactic)
classify_blunder_tactics_without_reply_example =
    classify_blunder_tactics_without_reply false knight_to_c3 (some knight_to_c3)
