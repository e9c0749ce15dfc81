-- ===== src/Moves/Floats.antt =====
-- What blunder_tutor/analysis/thresholds.py does with Python's floats, as an interface, and the
-- winning chances over it.
use chess_blunder_trainer.Common.{◌≡◌, Bool, true, false, if◌then◌else◌, arith}
use chess_blunder_trainer.Common.Int.{ℤ, pos, neg, min_ℤ, max_ℤ, ◌≤ℤ◌}

pub record Float (F : Type 0) : Type 0 where
  pub of_int : ℤ → F
  pub exp : F → F
  pub add : F → F → F
  pub sub : F → F → F
  pub mul : F → F → F
  pub div : F → F → F
  pub ge : F → F → Bool
  -- 0.0, 1.0, and the constants _WC_K (negated) and _WC_SCALE
  pub zero : F
  pub one : F
  pub minus_wc_k : F
  pub wc_scale : F

abbrev pub cp_ceiling : ℤ
cp_ceiling = pos 1000

unfoldable pub clamp_cp : ℤ → ℤ
clamp_cp cp = max_ℤ (neg cp_ceiling) (min_ℤ cp_ceiling cp)

-- dataclass Thresholds, without the centipawn limits, which nothing of the classification reads
pub record Thresholds (F : Type 0) : Type 0 where
  pub wc_inaccuracy : F
  pub wc_mistake : F
  pub wc_blunder : F

module _ {F : Type 0} ⦃fl : Float F⦄ where
  unfoldable pub winning_chances : ℤ → F
  winning_chances cp =
      fl.sub
        (fl.div fl.wc_scale
          (fl.add fl.one (fl.exp (fl.mul fl.minus_wc_k (fl.of_int (clamp_cp cp))))))
        fl.one

  -- max(0.0, x), which keeps the first of equal values
  unfoldable pub max_zero : F → F
  max_zero x = if fl.ge fl.zero x then fl.zero else x

-- Python's order on floats that are not NaN, and what rounding to nearest leaves of the monotony of
-- the operations that `winning_chances` is made of
pub record IsFloat (F : Type 0) ⦃fl : Float F⦄ : Type 0 where
  pub ge_refl : (x : F) → fl.ge x x ≡ true
  pub ge_trans : (x y z : F) → fl.ge x y ≡ true → fl.ge y z ≡ true → fl.ge x z ≡ true
  pub ge_total : (x y : F) → fl.ge x y ≡ false → fl.ge y x ≡ true
  pub of_int-mono : (a b : ℤ) → a ≤ℤ b → fl.ge (fl.of_int b) (fl.of_int a) ≡ true
  pub mul_k-anti :
      (x y : F) → fl.ge y x ≡ true → fl.ge (fl.mul fl.minus_wc_k x) (fl.mul fl.minus_wc_k y) ≡ true
  pub exp-mono : (x y : F) → fl.ge y x ≡ true → fl.ge (fl.exp y) (fl.exp x) ≡ true
  pub add_one-mono : (x y : F) → fl.ge y x ≡ true → fl.ge (fl.add fl.one y) (fl.add fl.one x) ≡ true
  pub add_exp-ge : (x : F) → fl.ge (fl.add fl.one (fl.exp x)) fl.one ≡ true
  pub div-anti :
      (x y : F)
      → fl.ge x fl.one ≡ true
      → fl.ge y x ≡ true
      → fl.ge (fl.div fl.wc_scale x) (fl.div fl.wc_scale y) ≡ true
  pub sub-mono : (x y z : F) → fl.ge y x ≡ true → fl.ge (fl.sub y z) (fl.sub x z) ≡ true
  pub sub-anti : (x y z : F) → fl.ge y x ≡ true → fl.ge (fl.sub z x) (fl.sub z y) ≡ true
  pub sub-self : (x : F) → fl.ge fl.zero (fl.sub x x) ≡ true

pub clamp_cp_top : (a b : ℤ) → cp_ceiling ≤ℤ b → clamp_cp a ≤ℤ clamp_cp b
unfolding clamp_cp
clamp_cp_top a b h = ground (arith, h)

pub clamp_cp_mono : (a b : ℤ) → a ≤ℤ b → clamp_cp a ≤ℤ clamp_cp b
unfolding clamp_cp
clamp_cp_mono a b h = ground (arith, h)

module _ {F : Type 0} ⦃fl : Float F⦄ (laws : IsFloat F) where
  pub winning_chances_mono :
      (a b : ℤ) → clamp_cp a ≤ℤ clamp_cp b → fl.ge (winning_chances b) (winning_chances a) ≡ true
  unfolding winning_chances
  winning_chances_mono a b h =
      let ka = fl.mul fl.minus_wc_k (fl.of_int (clamp_cp a)) in
      let kb = fl.mul fl.minus_wc_k (fl.of_int (clamp_cp b)) in
      let smaller =
        laws.mul_k-anti (fl.of_int (clamp_cp a)) (fl.of_int (clamp_cp b))
          (laws.of_int-mono (clamp_cp a) (clamp_cp b) h) in
      let below_one = laws.add_one-mono (fl.exp kb) (fl.exp ka) (laws.exp-mono kb ka smaller) in
      laws.sub-mono (fl.div fl.wc_scale (fl.add fl.one (fl.exp ka)))
        (fl.div fl.wc_scale (fl.add fl.one (fl.exp kb))) fl.one
        (laws.div-anti (fl.add fl.one (fl.exp kb)) (fl.add fl.one (fl.exp ka)) (laws.add_exp-ge kb)
          below_one)
