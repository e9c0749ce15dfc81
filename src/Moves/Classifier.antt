-- ===== src/Moves/Classifier.antt =====
-- blunder_tutor/analysis/pipeline/steps/_move_quality_classifier.py: the label of a move.
pub mod Severity
use chess_blunder_trainer.Common.{
  ℕ, String, Bool, true, false, Option, none, some, List, ◌&&◌, not, ◌==◌, string_eq, if◌then◌else◌,
  ltb, is_some,
}
use chess_blunder_trainer.Common.Int.{
  ℤ, pos, negsuc, neg, ◌-ℤ◌, above, max_ℤ, min_ℤ, leb_ℤ, ltb_ℤ, eqb_ℤ,
}
use chess_blunder_trainer.Moves.Floats.{Float, Thresholds, winning_chances, max_zero}

abbrev pub mate_score_analysis : ℤ
mate_score_analysis = pos 100000

abbrev pub mate_threshold : ℤ
mate_threshold = pos 90000

abbrev pub max_cp_loss : ℤ
max_cp_loss = pos 1500

-- -999 and -700
abbrev pub mate_cp_inaccuracy : ℤ
mate_cp_inaccuracy = negsuc 998

abbrev pub mate_cp_mistake : ℤ
mate_cp_mistake = negsuc 699

pub data Label : Type 0 where
  good inaccuracy mistake blunder : Label

abbrev pub class_to_int : Label → ℕ
class_to_int good = 0
class_to_int inaccuracy = 1
class_to_int mistake = 2
class_to_int blunder = 3

pub record MoveClassification : Type 0 where
  pub label : Label
  pub delta : ℤ
  pub cp_loss : ℤ
  pub missed_mate_depth : Option ℤ

-- What python-chess says of the board before a move. A move is its UCI text.
pub record BoardView : Type 0 where
  -- `chess.Move.from_uci` does not raise ValueError
  pub parses : String → Bool
  pub is_capture : String → Bool
  pub gives_check : String → Bool
  pub legal_count : ℕ

-- one entry of `move_evals`; `mate_pov` is `score.pov(side).mate()`, by whether the side is white
pub record MoveData : Type 0 where
  pub ply : ℕ
  pub move_number : ℕ
  pub player : String
  pub uci : String
  pub san : String
  pub eval_before : ℤ
  pub eval_after : ℤ
  pub mate_pov : Bool → Option ℤ
  pub best_move_uci : Option String
  pub best_move_san : Option String
  pub best_line : Option String
  pub best_move_eval : Option ℤ
  pub refutation_line : Option (List String)
  pub refutation_line_san : Option (List String)
  pub refutation_eval : Option ℤ
  pub board : Option BoardView

-- `chess.WHITE if move_data["player"] == "white" else chess.BLACK`
abbrev pub is_white : String → Bool
is_white player = player == "white"

unfoldable pub classify_mate_created : ℤ → Label
classify_mate_created prev_pov_cp =
    if ltb_ℤ prev_pov_cp mate_cp_inaccuracy
    then inaccuracy
    else if ltb_ℤ prev_pov_cp mate_cp_mistake
    then mistake
    else blunder

unfoldable pub classify_mate_lost : ℤ → Label
classify_mate_lost current_pov_cp =
    if ltb_ℤ (neg mate_cp_inaccuracy) current_pov_cp
    then inaccuracy
    else if ltb_ℤ (neg mate_cp_mistake) current_pov_cp
    then mistake
    else blunder

-- `mate is not None and mate > 0`
abbrev pub is_winning_mate : Option ℤ → Bool
is_winning_mate none = false
is_winning_mate (some depth) = ltb_ℤ (pos 0) depth

-- `abs(eval_after) >= MATE_THRESHOLD`, for the side that wins and the side that loses
abbrev pub has_winning : ℤ → Bool
has_winning eval = leb_ℤ mate_threshold eval

abbrev pub has_losing : ℤ → Bool
has_losing eval = leb_ℤ mate_threshold (neg eval)

module _ {F : Type 0} ⦃fl : Float F⦄ where
  unfoldable pub classify_wc : F → Thresholds F → Label
  classify_wc wc_loss thresholds =
      if fl.ge wc_loss thresholds.wc_blunder
      then blunder
      else if fl.ge wc_loss thresholds.wc_mistake
      then mistake
      else if fl.ge wc_loss thresholds.wc_inaccuracy
      then inaccuracy
      else good

  unfoldable pub wc_loss : ℤ → ℤ → F
  wc_loss eval_before eval_after =
      max_zero (fl.sub (winning_chances eval_before) (winning_chances eval_after))

  unfoldable pub pick_label : Option ℤ → ℤ → ℤ → Thresholds F → Label
  pick_label mate_before eval_before eval_after thresholds =
      if not (is_some mate_before) && has_losing eval_after
      then classify_mate_created eval_before
      else if is_winning_mate mate_before
          && not (has_winning eval_after)
          && not (has_losing eval_after)
      then classify_mate_lost eval_after
      else if is_winning_mate mate_before && has_losing eval_after
      then blunder
      else classify_wc (wc_loss eval_before eval_after) thresholds

  unfoldable pub classify_move : MoveData → Thresholds F → MoveClassification
  classify_move m thresholds =
      if eqb_ℤ m.eval_after mate_score_analysis
      then record { label = good; delta = pos 0; cp_loss = pos 0; missed_mate_depth = none }
      else let delta = m.eval_before -ℤ m.eval_after in
        let mate_before = m.mate_pov (is_white m.player) in
        record {
          label = pick_label mate_before m.eval_before m.eval_after thresholds;
          delta = delta;
          cp_loss = min_ℤ (max_ℤ (pos 0) delta) max_cp_loss;
          missed_mate_depth = if is_winning_mate mate_before then mate_before else none;
        }
