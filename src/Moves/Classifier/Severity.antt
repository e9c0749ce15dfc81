-- ===== src/Moves/Classifier/Severity.antt =====
-- How the labels and losses of _move_quality_classifier.py relate to the evaluations.
use chess_blunder_trainer.Common.{
  ◌≡◌, ◌≢◌, ◌≤◌, ◌⊎◌, ap, sym, refl, true, false, Option, arith, is_some, Bool-cases, inl, inr,
}
use chess_blunder_trainer.Common.Int.{ℤ, pos, negsuc, ◌-ℤ◌, ◌≤ℤ◌, above, below, max_ℤ, min_ℤ, eqb_ℤ}
use chess_blunder_trainer.Moves.Floats.{
  Float, IsFloat, Thresholds, winning_chances, max_zero, winning_chances_mono, clamp_cp_mono,
  clamp_cp_top,
}
use chess_blunder_trainer.Moves.Classifier.{
  good, class_to_int, MoveData, classify_mate_created, classify_mate_lost, has_winning, has_losing,
  classify_wc, wc_loss, pick_label, classify_move, is_white, mate_score_analysis, max_cp_loss,
  mate_cp_mistake,
}

abbrev cap : ℤ → ℤ
cap delta = min_ℤ (max_ℤ (pos 0) delta) max_cp_loss

cap_bounds : (d : ℤ) → (pos 0 ≤ℤ cap d) × (cap d ≤ℤ max_cp_loss)
cap_bounds (pos n) = ground arith
cap_bounds (negsuc n) = ground arith

cap-zero : (d : ℤ) → d ≤ℤ pos 0 → cap d ≡ pos 0
cap-zero (pos n) h = ground arith
cap-zero (negsuc n) h = ground arith

cap-whole : (d : ℤ) → pos 0 ≤ℤ d → d ≤ℤ max_cp_loss → cap d ≡ d
cap-whole (pos n) h fits = ground arith
cap-whole (negsuc n) h fits = ground arith

cap-top : (d : ℤ) → max_cp_loss ≤ℤ d → cap d ≡ max_cp_loss
cap-top (pos n) h = ground arith
cap-top (negsuc n) h = ground arith

minus-neg : (x y : ℤ) → x ≤ℤ y → (x -ℤ y) ≤ℤ pos 0
unfolding ◌-ℤ◌
minus-neg x y h = ground arith

minus-pos : (x y : ℤ) → y ≤ℤ x → pos 0 ≤ℤ (x -ℤ y)
unfolding ◌-ℤ◌
minus-pos x y h = ground arith

pub eqb-eq : (x y : ℤ) → eqb_ℤ x y ≡ true → x ≡ y
eqb-eq (pos n) (pos k) h = ground arith
eqb-eq (pos n) (negsuc k) h = ground arith
eqb-eq (negsuc n) (pos k) h = ground arith
eqb-eq (negsuc n) (negsuc k) h = ground arith

eqb-other : (x y : ℤ) → eqb_ℤ x y ≡ false → x ≢ y
eqb-other x y h e = ground (arith, h, ap above e, ap below e)

-- The centipawn loss of a move is between zero and 1500. It is zero when the move loses nothing or gives
-- checkmate. For any other move it is the whole difference of the evaluations as long as that is at most 1500,
-- and 1500 from there on.
pub cp_loss_bounds :
    {F : Type 0} ⦃fl : Float F⦄ (m : MoveData) (thresholds : Thresholds F)
    → let c = classify_move m thresholds in
      (pos 0 ≤ℤ c.cp_loss)
      × (c.cp_loss ≤ℤ pos 1500)
      × ((m.eval_before ≤ℤ m.eval_after) ⊎ (m.eval_after ≡ mate_score_analysis) → c.cp_loss ≡ pos 0)
      × (m.eval_after ≢ mate_score_analysis
          → m.eval_after ≤ℤ m.eval_before
          → (((m.eval_before -ℤ m.eval_after) ≤ℤ pos 1500
                → c.cp_loss ≡ m.eval_before -ℤ m.eval_after)
              × (pos 1500 ≤ℤ (m.eval_before -ℤ m.eval_after) → c.cp_loss ≡ pos 1500)))
unfolding classify_move
cp_loss_bounds m thresholds =
    let delta = m.eval_before -ℤ m.eval_after in
    elim (Bool-cases (eqb_ℤ m.eval_after mate_score_analysis)) [
      | inl mate ↦ rw mate (
        omega arith,
        omega arith,
        λ h. refl,
        λ other h. elim (other (eqb-eq m.eval_after mate_score_analysis mate)) [ ],
      )
      | inr other ↦ rw other (
        (cap_bounds delta).0,
        (cap_bounds delta).1,
        λ h. elim h [
          | inl loses_nothing ↦ cap-zero delta (minus-neg m.eval_before m.eval_after loses_nothing)
          | inr mate ↦ elim (eqb-other m.eval_after mate_score_analysis other mate) [ ]
        ],
        λ _ h. (cap-whole delta (minus-pos m.eval_before m.eval_after h), cap-top delta),
      )
    ]

module _ {F : Type 0} ⦃fl : Float F⦄ (laws : IsFloat F) where
  max_zero_mono : (x y : F) → fl.ge y x ≡ true → fl.ge (max_zero y) (max_zero x) ≡ true
  unfolding max_zero
  max_zero_mono x y h = ground (
    arith,
    h,
    laws.ge_refl fl.zero,
    laws.ge_total fl.zero y,
    laws.ge_trans fl.zero y x,
    laws.ge_total fl.zero x,
  )

  classify_wc_mono :
      (x y : F) (t : Thresholds F)
      → fl.ge y x ≡ true
      → class_to_int (classify_wc x t) ≤ class_to_int (classify_wc y t)
  unfolding classify_wc
  classify_wc_mono x y t h = ground (
    arith,
    h,
    laws.ge_trans y x t.wc_blunder,
    laws.ge_trans y x t.wc_mistake,
    laws.ge_trans y x t.wc_inaccuracy,
  )

  wc_loss_anti : (b a' a : ℤ) → a' ≤ℤ a → fl.ge (wc_loss b a') (wc_loss b a) ≡ true
  unfolding wc_loss
  wc_loss_anti b a' a h =
      max_zero_mono (fl.sub (winning_chances b) (winning_chances a))
        (fl.sub (winning_chances b) (winning_chances a'))
        (laws.sub-anti (winning_chances a') (winning_chances a) (winning_chances b)
          (winning_chances_mono laws a' a (clamp_cp_mono a' a h)))

  wc_loss-winning : (b a : ℤ) → has_winning a ≡ true → wc_loss b a ≡ fl.zero
  unfolding wc_loss max_zero
  wc_loss-winning b a w =
      let top = winning_chances_mono laws b a (clamp_cp_top b a (ground (arith, w))) in
      let no_loss =
        laws.ge_trans fl.zero (fl.sub (winning_chances a) (winning_chances a))
          (fl.sub (winning_chances b) (winning_chances a)) (laws.sub-self (winning_chances a))
          (laws.sub-mono (winning_chances b) (winning_chances a) (winning_chances a) top) in
      rw no_loss refl

  -- the thresholds are above zero
  abbrev pub ArePositive : Thresholds F → Type 0
  ArePositive t =
      (fl.ge fl.zero t.wc_inaccuracy ≡ false)
      × (fl.ge fl.zero t.wc_mistake ≡ false)
      × (fl.ge fl.zero t.wc_blunder ≡ false)

  winning_is_good :
      (b a : ℤ) (t : Thresholds F)
      → ArePositive t
      → has_winning a ≡ true
      → (mate : Option ℤ) → pick_label mate b a t ≡ good
  unfolding pick_label classify_wc
  winning_is_good b a t h w mate = ground (arith, h.0, h.1, h.2, w, wc_loss-winning b a w)

  label_from_wc :
      (mate : Option ℤ) (b a' a : ℤ) (t : Thresholds F)
      → ArePositive t
      → a' ≤ℤ a
      → (has_losing a' ≡ true → has_losing a ≡ true ⊎ (mate_cp_mistake ≤ℤ b) ⊎ is_some mate ≡ true)
      → class_to_int (pick_label mate b a t) ≤ class_to_int (pick_label mate b a' t)
  unfolding pick_label classify_mate_created classify_mate_lost
  label_from_wc mate b a' a t h worse side = elim (Bool-cases (has_winning a)) [
    | inl w ↦ rw (winning_is_good b a t h w mate) (omega arith)
    | inr w ↦ ground (
      arith,
      h,
      worse,
      w,
      classify_wc_mono (wc_loss b a) (wc_loss b a') t (wc_loss_anti b a' a worse),
    )
  ]

  -- For two moves from the same position, the one that leaves the mover worse never gets a milder label, when
  -- the thresholds are positive. The case in which only the worse move allows a forced mate is covered for a
  -- position that was not already lost (above -700, or with a mate on the board).
  pub worse_is_never_milder :
      (m m' : MoveData) (t : Thresholds F)
      → ArePositive t
      → m.eval_before ≡ m'.eval_before
      → m.mate_pov (is_white m.player) ≡ m'.mate_pov (is_white m'.player)
      → m'.eval_after ≤ℤ m.eval_after
      → (has_losing m'.eval_after ≡ true
          → has_losing m.eval_after ≡ true
            ⊎ (mate_cp_mistake ≤ℤ m.eval_before)
            ⊎ is_some (m.mate_pov (is_white m.player)) ≡ true)
      → class_to_int (classify_move m t).label ≤ class_to_int (classify_move m' t).label
  unfolding classify_move
  worse_is_never_milder m m' t h same_before same_mate worse side =
      elim (Bool-cases (eqb_ℤ m.eval_after mate_score_analysis)) [
        | inl mate ↦ rw mate (omega arith)
        | inr other ↦ elim (Bool-cases (eqb_ℤ m'.eval_after mate_score_analysis)) [
          | inl mate' ↦
              rw
                (
                  other,
                  mate',
                  winning_is_good m.eval_before m.eval_after t h (ground (arith, worse, mate'))
                      (m.mate_pov (is_white m.player)),
                )
                (omega arith)
          | inr other' ↦
              rw (other, other', sym same_before, sym same_mate)
                (label_from_wc (m.mate_pov (is_white m.player)) m.eval_before m'.eval_after
                  m.eval_after t h worse side)
        ]
      ]
