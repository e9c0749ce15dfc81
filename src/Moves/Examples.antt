-- ===== src/Moves/Examples.antt =====
-- The judgement of single moves on small inputs. The floats of the runs are whole numbers, on which the winning
-- chances are a straight line between the clamps.
use chess_blunder_trainer.Common.{
  ℕ, ◌+◌, ◌-◌, ◌≡◌, ◌≢◌, ◌↔◌, ◌⊎◌, ◌≤◌, refl, Bool, true, false, none, some, List, [], ◌∷◌, arith,
  inl, inr, All, if◌then◌else◌,
}
use chess_blunder_trainer.Common.Int.{ℤ, pos, negsuc, neg, leb_ℤ, ◌-ℤ◌, ◌+ℤ◌, ◌≤ℤ◌, above}
use chess_blunder_trainer.Pipeline.Steps.{StepContext, new_context, get_step_result}
use chess_blunder_trainer.Moves.Floats.{Float, IsFloat, Thresholds}
use chess_blunder_trainer.Moves.Classifier.{
  MoveData, BoardView, classify_move, class_to_int, mate_score_analysis,
}
use chess_blunder_trainer.Moves.Classifier.Severity.{cp_loss_bounds, worse_is_never_milder}
use chess_blunder_trainer.Moves.Quality.{
  compute_difficulty, compute_difficulty_bounds, QualityData, execute, has_succeeded, move_evals_of,
  AreRecordsOf, execute_records,
}
use chess_blunder_trainer.Moves.Phase.{BoardReader, phases, Rising, phases-Rising}
use chess_blunder_trainer.Moves.Filtering.{
  BlunderRow, filter_blunders, IsTrained, filter_blunders_exact,
}

instance abbrev straight : Float ℤ
straight = record {
  of_int = λ x. x;
  exp = λ x. pos (above (x +ℤ pos 1000));
  add = λ x y. x +ℤ y;
  sub = λ x y. x -ℤ y;
  mul = λ k x. neg x;
  div = λ s y. neg y;
  ge = λ x y. leb_ℤ y x;
  zero = pos 0;
  one = pos 1;
  minus_wc_k = pos 0;
  wc_scale = pos 2;
}

straight-IsFloat : IsFloat ℤ
unfolding ◌+ℤ◌ ◌-ℤ◌
straight-IsFloat = record {
  ge_refl = λ x. ground arith;
  ge_trans = λ x y z h k. ground (arith, h, k);
  ge_total = λ x y h. ground (arith, h);
  of_int-mono = λ a b h. ground (arith, h);
  mul_k-anti = λ x y h. ground (arith, h);
  exp-mono = λ x y h. ground (arith, h);
  add_one-mono = λ x y h. ground (arith, h);
  add_exp-ge = λ x. ground arith;
  div-anti = λ x y one h. ground (arith, h);
  sub-mono = λ x y z h. ground (arith, h);
  sub-anti = λ x y z h. ground (arith, h);
  sub-self = λ x. ground arith;
}

abbrev thresholds : Thresholds ℤ
thresholds = record { wc_inaccuracy = pos 100; wc_mistake = pos 200; wc_blunder = pos 300 }

abbrev quiet_board : BoardView
quiet_board = record {
  parses = λ uci. true;
  is_capture = λ uci. false;
  gives_check = λ uci. false;
  legal_count = 30;
}

-- a move from an evaluation of 50 to the given one
abbrev move_to : ℤ → MoveData
move_to eval = record {
  ply = 12;
  move_number = 6;
  player = "black";
  uci = "g8f6";
  san = "Nf6";
  eval_before = pos 50;
  eval_after = eval;
  mate_pov = λ white. none;
  best_move_uci = some "d7d5";
  best_move_san = some "d5";
  best_line = none;
  best_move_eval = none;
  refutation_line = none;
  refutation_line_san = none;
  refutation_eval = none;
  board = some quiet_board;
}

cp_loss_bounds_example :
    let c = classify_move (move_to (negsuc 449)) thresholds in
    (pos 0 ≤ℤ c.cp_loss)
    × (c.cp_loss ≤ℤ pos 1500)
    × ((pos 50 ≤ℤ negsuc 449) ⊎ (negsuc 449 ≡ mate_score_analysis) → c.cp_loss ≡ pos 0)
    × (negsuc 449 ≢ mate_score_analysis
        → negsuc 449 ≤ℤ pos 50
        → (((pos 50 -ℤ negsuc 449) ≤ℤ pos 1500 → c.cp_loss ≡ pos 50 -ℤ negsuc 449)
            × (pos 1500 ≤ℤ (pos 50 -ℤ negsuc 449) → c.cp_loss ≡ pos 1500)))
cp_loss_bounds_example = cp_loss_bounds (move_to (negsuc 449)) thresholds

loses_500 : (classify_move (move_to (negsuc 449)) thresholds).cp_loss ≡ pos 500
unfolding classify_move ◌-ℤ◌
loses_500 = refl

-- allowing a mate after an equal position, against losing 150 centipawns
worse_is_never_milder_example :
    class_to_int (classify_move (move_to (negsuc 99)) thresholds).label
    ≤ class_to_int (classify_move (move_to (negsuc 99994)) thresholds).label
worse_is_never_milder_example =
    worse_is_never_milder straight-IsFloat (move_to (negsuc 99)) (move_to (negsuc 99994)) thresholds
      (refl, refl, refl) refl refl (omega arith) (λ mated. inr (inl (omega arith)))

compute_difficulty_bounds_example :
    let d = compute_difficulty quiet_board (some "d7d5") (pos 500) 3 in
    (d ≤ 85) × ((d ≡ 0) ↔ ◌≡◌ {A = ℕ} 3 0) × (1 ≤ 3 → 5 ≤ d)
compute_difficulty_bounds_example = compute_difficulty_bounds quiet_board (some "d7d5") (pos 500) 3

abbrev evaluated : StepContext (Unit {0}) QualityData
evaluated = record (new_context "g1" tt none false) {
  step_results =
      (
        "stockfish",
        record {
          step_id = "stockfish";
          success = true;
          payload = some (record {
            move_evals = some (move_to (pos 30) ∷ move_to (negsuc 449) ∷ []);
            moves = [];
          });
          error = none;
        },
      )
      ∷ [];
}

execute_records_example :
    let found = get_step_result evaluated "stockfish" in
    let result = execute thresholds evaluated in
    (result.success ≡ has_succeeded found)
    × (result.success ≡ true
        → (d : QualityData) × (result.payload ≡ some d)
          × AreRecordsOf (move_evals_of found) d.moves)
execute_records_example = execute_records thresholds evaluated

-- a board that is its number of pieces and the side to move; a move takes pieces off it
abbrev counted : BoardReader (ℕ × Bool × ℕ) ℕ
counted = record {
  pieces = λ b. b.0;
  white_to_move = λ b. b.1;
  fullmove_number = λ b. b.2;
  push = λ b taken. (b.0 - taken, (if b.1 then false else true), (if b.1 then b.2 else b.2 + 1));
}

phases-Rising_example : Rising 0 (phases counted (32, true, 1) (0 ∷ 1 ∷ 20 ∷ 10 ∷ []))
phases-Rising_example =
    phases-Rising counted (λ b taken. omega arith) (32, true, 1) (0 ∷ 1 ∷ 20 ∷ 10 ∷ [])

abbrev rows : List BlunderRow
rows =
    record {
      game_id = "g1";
      player = some 0;
      eval_before = some (pos 40);
      eval_after = some (negsuc 399);
      missed_mate_depth = none;
    }
    ∷ record {
      game_id = "g1";
      player = some 1;
      eval_before = some (pos 40);
      eval_after = some (negsuc 399);
      missed_mate_depth = none;
    }
    ∷ record {
      game_id = "g1";
      player = some 0;
      eval_before = some (pos 900);
      eval_after = some (pos 350);
      missed_mate_depth = none;
    }
    ∷ []

filter_blunders_exact_example :
    All (IsTrained (("g1", 0) ∷ [])) (filter_blunders (("g1", 0) ∷ []) rows)
    × ((P : BlunderRow → Type 0)
        → All P (filter_blunders (("g1", 0) ∷ []) rows)
        → All (λ b. IsTrained (("g1", 0) ∷ []) b → P b) rows)
filter_blunders_exact_example = filter_blunders_exact (("g1", 0) ∷ []) rows
