-- ===== src/Moves/Quality.antt =====
-- blunder_tutor/analysis/pipeline/steps/move_quality.py: the difficulty of a move, and the step that writes a
-- record for each evaluated move (build_move_record is in _move_quality_classifier.py).
use chess_blunder_trainer.Common.{
  ℕ, ◌+◌, ◌≤◌, ◌≡◌, ◌↔◌, String, Bool, true, false, Option, none, some, List, [], ◌∷◌, ◌&&◌, not,
  ◌==◌, string_eq, if◌then◌else◌, leb, ltb, min, arith, refl, Bool-cases, inl, inr, ◌≢◌, ◌⊎◌,
  Option-cases,
}
use chess_blunder_trainer.Common.Int.{ℤ, pos, leb_ℤ, ◌≤ℤ◌, ◌-ℤ◌, eqb_ℤ}
use chess_blunder_trainer.Pipeline.Steps.{StepResult, StepContext, get_step_result}
use chess_blunder_trainer.Moves.Floats.{Float, Thresholds}
use chess_blunder_trainer.Moves.Classifier.{
  MoveData, BoardView, MoveClassification, class_to_int, inaccuracy, classify_move, is_white,
  mate_score_analysis,
}
use chess_blunder_trainer.Moves.Classifier.Severity.{cp_loss_bounds, eqb-eq}

-- (is_capture, gives_check)
abbrev pub quietness_score : Bool → Bool → ℕ
quietness_score false false = 40
quietness_score true false = 15
quietness_score is_capture true = 5

unfoldable pub score_narrowness : ℕ → ℕ
score_narrowness legal_count =
    if leb legal_count 3
    then 30
    else if leb legal_count 8
    then 20
    else if leb legal_count 15
    then 10
    else 0

-- the score of a best move that `from_uci` reads
unfoldable pub score_best_move : BoardView → String → ℤ → ℕ
score_best_move board uci cp_loss =
    let is_capture = board.is_capture uci in
    let gives_check = board.gives_check uci in
    let score = quietness_score is_capture gives_check + score_narrowness board.legal_count in
    let bonus = leb_ℤ (pos 400) cp_loss && not is_capture && not gives_check in
    min (if bonus then score + 15 else score) 100

unfoldable pub compute_difficulty : BoardView → Option String → ℤ → ℕ → ℕ
compute_difficulty board best_move_uci cp_loss classification =
    if ltb classification (class_to_int inaccuracy) then 0 else elim best_move_uci [
      | none ↦ 50
      | some uci ↦
          if uci == ""
          then 50
          else if board.parses uci
          then score_best_move board uci cp_loss
          else 50
    ]

unfoldable pub difficulty_for : MoveData → ℤ → ℕ → Option ℕ
difficulty_for m cp_loss classification = elim m.board [
  | none ↦ none
  | some board ↦ some (compute_difficulty board m.best_move_uci cp_loss classification)
]

pub record MoveRecord : Type 0 where
  pub ply : ℕ
  pub move_number : ℕ
  pub player : String
  pub uci : String
  pub san : String
  pub eval_before : ℤ
  pub eval_after : ℤ
  pub delta : ℤ
  pub cp_loss : ℤ
  pub classification : ℕ
  pub best_move_uci : Option String
  pub best_move_san : Option String
  pub best_line : Option String
  pub best_move_eval : Option ℤ
  pub refutation_line : Option (List String)
  pub refutation_line_san : Option (List String)
  pub refutation_eval : Option ℤ
  pub difficulty : Option ℕ
  pub missed_mate_depth : Option ℤ

unfoldable pub build_move_record : MoveData → MoveClassification → Option ℕ → MoveRecord
build_move_record m c difficulty = record {
  ply = m.ply;
  move_number = m.move_number;
  player = m.player;
  uci = m.uci;
  san = m.san;
  eval_before = m.eval_before;
  eval_after = m.eval_after;
  delta = c.delta;
  cp_loss = c.cp_loss;
  classification = class_to_int c.label;
  best_move_uci = m.best_move_uci;
  best_move_san = m.best_move_san;
  best_line = m.best_line;
  best_move_eval = m.best_move_eval;
  refutation_line = m.refutation_line;
  refutation_line_san = m.refutation_line_san;
  refutation_eval = m.refutation_eval;
  difficulty = difficulty;
  missed_mate_depth = c.missed_mate_depth;
}

-- what the data of the two steps holds: `move_evals` of stockfish, `moves` of move_quality
pub record QualityData : Type 0 where
  pub move_evals : Option (List MoveData)
  pub moves : List MoveRecord

-- the evaluations of a stockfish step that has succeeded
abbrev pub move_evals_of : Option (StepResult QualityData) → List MoveData
move_evals_of none = []
move_evals_of (some r) = elim r.payload [
  | none ↦ []
  | some d ↦ elim d.move_evals [ none ↦ [] | some evals ↦ evals ]
]

module _ {F : Type 0} ⦃fl : Float F⦄ (thresholds : Thresholds F) where
  unfoldable pub move_records : List MoveData → List MoveRecord
  move_records [] = []
  move_records (m ∷ ms) =
      let c = classify_move m thresholds in
      build_move_record m c (difficulty_for m c.cp_loss (class_to_int c.label)) ∷ move_records ms

  abbrev stockfish_missing : StepResult QualityData
  stockfish_missing = record {
    step_id = "move_quality";
    success = false;
    payload = none;
    error = some "Stockfish step not completed";
  }

  unfoldable pub after_stockfish : Option (StepResult QualityData) → StepResult QualityData
  after_stockfish none = stockfish_missing
  after_stockfish (some r) =
      if r.success
      then record {
        step_id = "move_quality";
        success = true;
        payload =
            some (record { move_evals = none; moves = move_records (move_evals_of (some r)) });
        error = none;
      }
      else stockfish_missing

  -- `MoveQualityStep.execute`, but for `analyzed_at`
  unfoldable pub execute : {G : Type 0} → StepContext G QualityData → StepResult QualityData
  execute ctx = after_stockfish (get_step_result ctx "stockfish")

abbrev pub has_succeeded : Option (StepResult QualityData) → Bool
has_succeeded none = false
has_succeeded (some r) = r.success

score_best_move_bounds :
    (board : BoardView) (uci : String) (cp_loss : ℤ)
    → (5 ≤ score_best_move board uci cp_loss) × (score_best_move board uci cp_loss ≤ 85)
unfolding score_best_move score_narrowness
score_best_move_bounds board uci cp_loss = ground arith

-- The difficulty of a move is zero exactly for a move that is no mistake of any kind, otherwise at least 5, and
-- it never exceeds 85: the cap at 100 is never reached.
pub compute_difficulty_bounds :
    (board : BoardView) (best : Option String) (cp_loss : ℤ) (classification : ℕ)
    → (compute_difficulty board best cp_loss classification ≤ 85)
      × ((compute_difficulty board best cp_loss classification ≡ 0) ↔ (classification ≡ 0))
      × (1 ≤ classification → 5 ≤ compute_difficulty board best cp_loss classification)
unfolding compute_difficulty
compute_difficulty_bounds board none cp_loss classification = ground arith
compute_difficulty_bounds board (some uci) cp_loss classification =
    ground (arith, score_best_move_bounds board uci cp_loss)

-- the loss and the difference of the record's own evaluations
pub record HasLoss (r : MoveRecord) : Type 0 where
  pub at_least : pos 0 ≤ℤ r.cp_loss
  pub at_most : r.cp_loss ≤ℤ pos 1500
  pub no_loss :
      (r.eval_before ≤ℤ r.eval_after) ⊎ (r.eval_after ≡ mate_score_analysis) → r.cp_loss ≡ pos 0
  pub loss :
      r.eval_after ≢ mate_score_analysis
      → r.eval_after ≤ℤ r.eval_before
      → (((r.eval_before -ℤ r.eval_after) ≤ℤ pos 1500 → r.cp_loss ≡ r.eval_before -ℤ r.eval_after)
          × (pos 1500 ≤ℤ (r.eval_before -ℤ r.eval_after) → r.cp_loss ≡ pos 1500))
  pub delta : r.eval_after ≢ mate_score_analysis → r.delta ≡ r.eval_before -ℤ r.eval_after

-- a difficulty that fits the classification
abbrev pub Fits : ℕ → ℕ → Type 0
Fits classification d = (d ≤ 85) × ((d ≡ 0) ↔ (classification ≡ 0)) × (1 ≤ classification → 5 ≤ d)

-- the record that a move is written as
pub record IsRecordOf (m : MoveData) (r : MoveRecord) : Type 0 where
  pub place : (r.ply ≡ m.ply) × (r.move_number ≡ m.move_number) × (r.player ≡ m.player)
  pub names : (r.uci ≡ m.uci) × (r.san ≡ m.san)
  pub evals : (r.eval_before ≡ m.eval_before) × (r.eval_after ≡ m.eval_after)
  pub best :
      (r.best_move_uci ≡ m.best_move_uci)
      × (r.best_move_san ≡ m.best_move_san)
      × (r.best_line ≡ m.best_line)
      × (r.best_move_eval ≡ m.best_move_eval)
  pub refutation :
      (r.refutation_line ≡ m.refutation_line)
      × (r.refutation_line_san ≡ m.refutation_line_san)
      × (r.refutation_eval ≡ m.refutation_eval)
  pub classified : r.classification ≤ 3
  pub cp_loss : HasLoss r
  pub no_difficulty : m.board ≡ none → r.difficulty ≡ none
  pub difficulty :
      (board : BoardView)
      → m.board ≡ some board
      → (d : ℕ) × (r.difficulty ≡ some d) × Fits r.classification d
  pub missed_mate :
      (depth : ℤ)
      → r.missed_mate_depth ≡ some depth
      → (m.mate_pov (is_white m.player) ≡ some depth) × (pos 1 ≤ℤ depth)

abbrev pub AreRecordsOf : List MoveData → List MoveRecord → Type 0
AreRecordsOf [] [] = Unit
AreRecordsOf [] (r ∷ rs) = ⊥
AreRecordsOf (m ∷ ms) [] = ⊥
AreRecordsOf (m ∷ ms) (r ∷ rs) = IsRecordOf m r × AreRecordsOf ms rs

module _ {F : Type 0} ⦃fl : Float F⦄ (thresholds : Thresholds F) where
  delta-classify_move :
      (m : MoveData)
      → m.eval_after ≢ mate_score_analysis
      → (classify_move m thresholds).delta ≡ m.eval_before -ℤ m.eval_after
  unfolding classify_move
  delta-classify_move m other = elim (Bool-cases (eqb_ℤ m.eval_after mate_score_analysis)) [
    | inl mate ↦ elim (other (eqb-eq m.eval_after mate_score_analysis mate)) [ ]
    | inr no_mate ↦ rw no_mate refl
  ]

  missed_mate_depth-classify_move :
      (m : MoveData) (depth : ℤ)
      → (classify_move m thresholds).missed_mate_depth ≡ some depth
      → (m.mate_pov (is_white m.player) ≡ some depth) × (pos 1 ≤ℤ depth)
  unfolding classify_move
  missed_mate_depth-classify_move m depth e = elim (Option-cases (m.mate_pov (is_white m.player))) [
    | inl no_mate ↦ ground (arith, e, no_mate)
    | inr (found, there) ↦ ground (arith, e, there)
  ]

  difficulty_for-Fits :
      (m : MoveData) (cp_loss : ℤ) (classification : ℕ)
      → (m.board ≡ none → difficulty_for m cp_loss classification ≡ none)
        × ((board : BoardView)
            → m.board ≡ some board
            → (d : ℕ) × (difficulty_for m cp_loss classification ≡ some d) × Fits classification d)
  unfolding difficulty_for
  difficulty_for-Fits m cp_loss classification = (
    λ e. rw e refl,
    λ board e.
        rw e (_, refl, compute_difficulty_bounds board m.best_move_uci cp_loss classification),
  )

  move_records-AreRecordsOf : (ms : List MoveData) → AreRecordsOf ms (move_records thresholds ms)
  unfolding move_records build_move_record
  move_records-AreRecordsOf [] = tt
  move_records-AreRecordsOf (m ∷ ms) =
      let c = classify_move m thresholds in
      let bounds = cp_loss_bounds m thresholds in
      let fits = difficulty_for-Fits m c.cp_loss (class_to_int c.label) in
      (
        record {
          place = (refl, refl, refl);
          names = (refl, refl);
          evals = (refl, refl);
          best = (refl, refl, refl, refl);
          refutation = (refl, refl, refl);
          classified = ground arith;
          cp_loss = record {
            at_least = bounds.0;
            at_most = bounds.1;
            no_loss = bounds.2;
            loss = bounds.3;
            delta = delta-classify_move m;
          };
          no_difficulty = fits.0;
          difficulty = fits.1;
          missed_mate = missed_mate_depth-classify_move m;
        },
        move_records-AreRecordsOf ms,
      )

module _ {F : Type 0} ⦃fl : Float F⦄ (thresholds : Thresholds F) where
  after_stockfish_records :
      (found : Option (StepResult QualityData))
      → let result = after_stockfish thresholds found in
        (result.success ≡ has_succeeded found)
        × (result.success ≡ true
            → (d : QualityData) × (result.payload ≡ some d)
              × AreRecordsOf (move_evals_of found) d.moves)
  unfolding after_stockfish
  after_stockfish_records none = (refl, λ h. ground (arith, h))
  after_stockfish_records (some r) = elim (Bool-cases r.success) [
    | inl done ↦
        rw done
          (refl, λ h. (_, refl, move_records-AreRecordsOf thresholds (move_evals_of (some r))))
    | inr failed ↦ rw failed (refl, λ h. ground (arith, h))
  ]

  -- The move_quality step succeeds exactly when the stockfish step has succeeded, and then it writes one record
  -- for each of its evaluations, in their order. A record copies the place, the names, the evaluations, the best
  -- move and the refutation of its move. Its loss is the one that its own two evaluations have between 0 and 1500,
  -- its classification is at most 3, and its difficulty is absent without a board and otherwise zero exactly when the
  -- classification is, and at least 5 and at most 85 if not. A missed mate is one that the mover had, in at least one
  -- move.
  pub execute_records :
      {G : Type 0} (ctx : StepContext G QualityData)
      → let found = get_step_result ctx "stockfish" in
        let result = execute thresholds ctx in
        (result.success ≡ has_succeeded found)
        × (result.success ≡ true
            → (d : QualityData) × (result.payload ≡ some d)
              × AreRecordsOf (move_evals_of found) d.moves)
  unfolding execute
  execute_records ctx = after_stockfish_records (get_step_result ctx "stockfish")
