-- ===== src/Moves/Filtering.antt =====
-- blunder_tutor/analysis/filtering.py: which blunders are worth training.
use chess_blunder_trainer.Common.{
  ℕ, ◌≡◌, ◌↔◌, ◌⊎◌, inl, inr, refl, String, Bool, true, false, Option, none, some, List, [], ◌∷◌,
  ◌&&◌, not, ◌==◌, nat_eq, string_eq, if◌then◌else◌, arith, All, Bool-cases,
}
use chess_blunder_trainer.Common.Dict
use chess_blunder_trainer.Common.Dict.{Dict}
use chess_blunder_trainer.Common.Int.{ℤ, pos, negsuc, leb_ℤ, ltb_ℤ, ◌≤ℤ◌}
use chess_blunder_trainer.Moves.Classifier.{mate_threshold}

-- -300
abbrev pub already_lost_threshold : ℤ
already_lost_threshold = negsuc 299

abbrev pub still_winning_threshold : ℤ
still_winning_threshold = pos 300

abbrev pub long_mate_depth_threshold : ℤ
long_mate_depth_threshold = pos 5

-- the keys that the filter reads; `game_id` is the text that `str` makes of it
pub record BlunderRow : Type 0 where
  pub game_id : String
  pub player : Option ℕ
  pub eval_before : Option ℤ
  pub eval_after : Option ℤ
  pub missed_mate_depth : Option ℤ

-- `blunder.get(key, 0)`
abbrev pub or_zero : Option ℤ → ℤ
or_zero none = pos 0
or_zero (some x) = x

abbrev pub is_short_mate : Option ℤ → Bool
is_short_mate none = false
is_short_mate (some depth) = ltb_ℤ (pos 0) depth && leb_ℤ depth long_mate_depth_threshold

unfoldable pub is_valid_blunder : BlunderRow → Bool
is_valid_blunder b =
    let eval_before = or_zero b.eval_before in
    let eval_after = or_zero b.eval_after in
    if is_short_mate b.missed_mate_depth
    then true
    else if leb_ℤ mate_threshold eval_before && leb_ℤ (pos 0) eval_after
    then false
    else if leb_ℤ mate_threshold eval_after
    then false
    else if leb_ℤ eval_before already_lost_threshold
    then false
    else not (leb_ℤ still_winning_threshold eval_after)

abbrev is_player : Option ℕ → Option ℕ → Bool
is_player player none = false
is_player none (some side) = false
is_player (some player) (some side) = player == side

-- `game_id in game_side_map and player == game_side_map[game_id]`
unfoldable pub is_own_move : Dict String ℕ → BlunderRow → Bool
is_own_move sides b = is_player b.player (Dict.get sides b.game_id)

unfoldable pub filter_blunders : Dict String ℕ → List BlunderRow → List BlunderRow
filter_blunders sides [] = []
filter_blunders sides (b ∷ bs) =
    let rest = filter_blunders sides bs in
    if is_own_move sides b && is_valid_blunder b then b ∷ rest else rest

-- What the thresholds mean: a short mate was missed, or the mover was not lost before the move, is not still
-- winning after it, and if a mate was there it turned into a worse position.
abbrev pub IsLearnable : BlunderRow → Type 0
IsLearnable b =
    (is_short_mate b.missed_mate_depth ≡ true)
    ⊎ ((negsuc 298 ≤ℤ or_zero b.eval_before)
        × (or_zero b.eval_after ≤ℤ pos 299)
        × ((or_zero b.eval_before ≤ℤ pos 89999) ⊎ (or_zero b.eval_after ≤ℤ negsuc 0)))

abbrev pub IsTrained : Dict String ℕ → BlunderRow → Type 0
IsTrained sides b =
    ((side : ℕ) × (Dict.get sides b.game_id ≡ some side) × (b.player ≡ some side)) × IsLearnable b

is_valid_blunder-IsLearnable : (b : BlunderRow) → (is_valid_blunder b ≡ true) ↔ IsLearnable b
unfolding is_valid_blunder
is_valid_blunder-IsLearnable b = ground arith

is_player_iff :
    (player side : Option ℕ)
    → (is_player player side ≡ true) ↔ ((s : ℕ) × (side ≡ some s) × (player ≡ some s))
is_player_iff player none = (λ h. ground (arith, h), λ h. ground (arith, h.1))
is_player_iff none (some side) = (λ h. ground (arith, h), λ h. ground (arith, h.2))
is_player_iff (some player) (some side) =
    (λ h. (side, refl, ground (arith, h)), λ h. ground (arith, h.1, h.2))

is_own_move_iff :
    (sides : Dict String ℕ) (b : BlunderRow)
    → (is_own_move sides b ≡ true)
      ↔ ((side : ℕ) × (Dict.get sides b.game_id ≡ some side) × (b.player ≡ some side))
unfolding is_own_move
is_own_move_iff sides b = is_player_iff b.player (Dict.get sides b.game_id)

IsTrained-iff :
    (sides : Dict String ℕ) (b : BlunderRow)
    → (is_own_move sides b && is_valid_blunder b ≡ true) ↔ IsTrained sides b
IsTrained-iff sides b =
    let own = is_own_move_iff sides b in
    let valid = is_valid_blunder-IsLearnable b in
    (
      λ h. (own.0 (ground (arith, h)), valid.0 (ground (arith, h))),
      λ h. ground (arith, own.1 h.0, valid.1 h.1),
    )

-- The filter keeps exactly the blunders of the game's own side that the thresholds call learnable: all that it
-- returns are such, and what holds of all that it returns holds of every such blunder of the input.
pub filter_blunders_exact :
    (sides : Dict String ℕ) (bs : List BlunderRow)
    → All (IsTrained sides) (filter_blunders sides bs)
      × ((P : BlunderRow → Type 0)
          → All P (filter_blunders sides bs)
          → All (λ b. IsTrained sides b → P b) bs)
unfolding filter_blunders
filter_blunders_exact sides [] = (tt, λ P h. tt)
filter_blunders_exact sides (b ∷ bs) =
    let iff = IsTrained-iff sides b in
    let (sound, complete) = filter_blunders_exact sides bs in
    elim (Bool-cases (is_own_move sides b && is_valid_blunder b)) [
      | inl kept ↦ rw kept ((iff.0 kept, sound), λ P h. (λ t. h.0, complete P h.1))
      | inr dropped ↦
          rw dropped (sound, λ P h. (λ t. ground (arith, iff.1 t, dropped), complete P h))
    ]
