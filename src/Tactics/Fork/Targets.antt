-- ===== src/Tactics/Fork/Targets.antt =====
-- Which squares a fork that `detect_fork` (blunder_tutor/analysis/tactics.py) reports is about.
use chess_blunder_trainer.Common.{
  ℕ, ◌≡◌, ◌≤◌, refl, sym, ap, ◌∙◌, subst, Bool, true, false, Option, none, some, List, [], ◌∷◌, not,
  ◌||◌, ◌&&◌, if◌then◌else◌, ltb, leb, keep, map, length, is_some, arith, Bool-cases, inl, inr,
}
use chess_blunder_trainer.Common.Search.{and_then, when, map_some, prepend, some-injective}
use chess_blunder_trainer.Common.Sorting.{second_highest, count}
use chess_blunder_trainer.Tactics.Board.{
  Piece, ChessMove, ChessBoard, squares, fork, TacticalMotif, piece_value, is_king, of_color,
  same_color,
}
use chess_blunder_trainer.Tactics.Fork.{
  Target, target_at, count_attacked_valuable_pieces, filter_fork_targets, build_fork_motif, fork_by,
  detect_fork,
}

-- an enemy piece that is the king or is worth at least the attacker
abbrev pub is_worth_forking : Bool → ℕ → Option Piece → Bool
is_worth_forking attacker_color attacker_value none = false
is_worth_forking attacker_color attacker_value (some p) =
    same_color p.color (not attacker_color)
    && (leb attacker_value (piece_value p.piece_type) || is_king p.piece_type)

abbrev pub worth_of : Option Piece → ℕ
worth_of none = 0
worth_of (some p) = piece_value p.piece_type

-- a target as `target_at` finds it, by whether the square is attacked and what stands on it
abbrev target_from : Bool → Option Piece → Bool → ℕ → Option Target
target_from attacked on_square color sq = when attacked (
    and_then (of_color (not color) on_square) (λ (p : Piece).
      when (leb 0 (piece_value p.piece_type)) (
        some
          (record { square = sq; piece_type = p.piece_type; value = piece_value p.piece_type }))))

abbrev is_valuable : ℕ → Target → Bool
is_valuable value t = leb value t.value || is_king t.piece_type

abbrev Shows : List Target → List ℕ → (ℕ → ℕ) → Type 0
Shows ts sqs worth =
    (map (λ (t : Target). t.square) ts ≡ sqs) × (map (λ (t : Target). t.value) ts ≡ map worth sqs)

Shows-target :
    (color : Bool) (value sq : ℕ) (attacked : Bool) (on_square : Option Piece) (rest : List Target)
    (sqs : List ℕ) (worth : ℕ → ℕ)
    → worth sq ≡ worth_of on_square
    → Shows (keep (is_valuable value) rest) sqs worth
    → Shows
        (keep (is_valuable value) (prepend (target_from attacked on_square color sq) rest))
        (if attacked && is_worth_forking color value on_square then sq ∷ sqs else sqs)
        worth
unfolding keep
Shows-target color value sq false on_square rest sqs worth w h = h
Shows-target color value sq true none rest sqs worth w h = h
Shows-target color value sq true (some p) rest sqs worth w h =
    elim (Bool-cases (same_color p.color (not color))) [
      | inl enemy ↦
          let any_value : leb 0 (piece_value p.piece_type) ≡ true = ground arith in
          elim (Bool-cases (leb value (piece_value p.piece_type) || is_king p.piece_type)) [
            | inl valuable ↦ rw (enemy, any_value, valuable, w, h.0, h.1) (refl, refl)
            | inr cheap ↦ rw (enemy, any_value, cheap) h
          ]
      | inr own ↦ rw own h
    ]

length-map : {A C : Type 0} (f : A → C) (xs : List A) → length (map f xs) ≡ length xs
length-map f [] = refl
length-map f (x ∷ xs) = omega (arith, length-map f xs)

-- what a motif says of the squares of a fork from `to` and what stands on them
abbrev pub IsForkOf : ℕ → List ℕ → List ℕ → TacticalMotif → Type 0
IsForkOf to sqs worth m =
    (m.pattern ≡ fork)
    × (m.squares_of ≡ to ∷ sqs)
    × (2 ≤ count (λ v. leb m.material_gain v) worth)
    × (count (λ v. ltb m.material_gain v) worth ≤ 1)

build_fork_motif-IsForkOf :
    (ts : List Target) (sqs : List ℕ) (worth : ℕ → ℕ) (to : ℕ)
    → Shows ts sqs worth
    → 2 ≤ length ts
    → IsForkOf to sqs (map worth sqs) (build_fork_motif ts to)
unfolding build_fork_motif
build_fork_motif-IsForkOf ts sqs worth to h enough =
    let values = map (λ (t : Target). t.value) ts in
    let second = second_highest values (rw (length-map (λ (t : Target). t.value) ts) enough) in
    (refl, ap (λ xs. to ∷ xs) h.0, rw (sym h.1) second.0, rw (sym h.1) second.1)

fork_from :
    (ts : List Target) (sqs : List ℕ) (worth : ℕ → ℕ) (to : ℕ)
    → Shows ts sqs worth
    → let r = if ltb (length ts) 2 then none else some (build_fork_motif ts to) in
      (is_some r ≡ leb 2 (length sqs))
      × ((m : TacticalMotif) → r ≡ some m → IsForkOf to sqs (map worth sqs) m)
fork_from ts sqs worth to h =
    let size : length ts ≡ length sqs =
      sym (length-map (λ (t : Target). t.square) ts) ∙ ap {B = ℕ} length h.0 in
    elim (Bool-cases (ltb (length ts) 2)) [
      | inl few ↦ rw few (ground (arith, few, size), λ m e. ground (arith, e))
      | inr enough ↦ rw enough (
        ground (arith, enough, size),
        λ m e.
            subst (IsForkOf to sqs (map worth sqs)) (some-injective e)
              (build_fork_motif-IsForkOf ts sqs worth to h (ground (arith, enough))),
      )
    ]

module _ {B : Type 0} ⦃chess : ChessBoard B⦄ where
  abbrev pub is_fork_target : B → ChessMove → Piece → ℕ → Bool
  is_fork_target board_after move mover sq =
      chess.attacks board_after move.to_square sq
      && is_worth_forking mover.color (piece_value mover.piece_type) (chess.piece_at board_after sq)

  abbrev pub worth_on : B → ℕ → ℕ
  worth_on board sq = worth_of (chess.piece_at board sq)

  abbrev pub fork_squares : B → ChessMove → Piece → List ℕ
  fork_squares board move mover = keep (is_fork_target (chess.push board move) move mover) squares

  targets_of : B → ChessMove → Piece → List ℕ → List Target
  targets_of after move mover sqs =
      filter_fork_targets (map_some (target_at after move.to_square mover.color 0) sqs)
        (piece_value mover.piece_type)

  Shows-targets_of :
      (after : B) (move : ChessMove) (mover : Piece) (sqs : List ℕ)
      → Shows
          (targets_of after move mover sqs)
          (keep (is_fork_target after move mover) sqs)
          (worth_on after)
  unfolding targets_of filter_fork_targets map_some keep target_at
  Shows-targets_of after move mover [] = (refl, refl)
  Shows-targets_of after move mover (sq ∷ sqs) =
      Shows-target mover.color (piece_value mover.piece_type) sq
        (chess.attacks after move.to_square sq) (chess.piece_at after sq)
        (map_some (target_at after move.to_square mover.color 0) sqs)
        (keep (is_fork_target after move mover) sqs) (worth_on after) refl
        (Shows-targets_of after move mover sqs)

  -- A move forks exactly when at least two enemy pieces that it attacks from its destination are worth at least the
  -- moved piece or are the king. The motif then names the destination and all those squares, in order, and its
  -- gain is the second highest of the targets' values: at least two targets are worth as much, at most one more.
  pub detect_fork_exact :
      (board : B) (move : ChessMove) (mover : Piece)
      → chess.piece_at board move.from_square ≡ some mover
      → let targets = fork_squares board move mover in
        let worth = map (worth_on (chess.push board move)) targets in
        (is_some (detect_fork board move) ≡ leb 2 (length targets))
        × ((m : TacticalMotif)
            → detect_fork board move ≡ some m
            → IsForkOf move.to_square targets worth m)
  unfolding detect_fork fork_by count_attacked_valuable_pieces targets_of
  detect_fork_exact board move mover there =
      let after = chess.push board move in
      rw there (
        fork_from (targets_of after move mover squares) (fork_squares board move mover)
          (worth_on after) move.to_square (Shows-targets_of after move mover squares))
