-- ===== src/Auth/Tables/Rows.antt =====
-- Lemmas on the rows of a table: selection, deletion and update.
use chess_blunder_trainer.Common.{
  ◌≡◌, Bool, true, some, List, [], ◌∷◌, keep, arith, All, Bool-cases, inl, inr, map,
}
use mathlib.Core.Path.{subst}
use chess_blunder_trainer.Auth.Tables.{first}

module _ {A : Type 0} where
  pub All-keep : (P : A → Type 0) (p : A → Bool) (xs : List A) → All P xs → All P (keep p xs)
  unfolding keep
  All-keep P p [] h = tt
  All-keep P p (x ∷ xs) h = elim (Bool-cases (p x)) [
    | inl holds ↦ rw (holds, keep) (h.0, All-keep P p xs h.1)
    | inr fails ↦ rw (fails, keep) (All-keep P p xs h.1)
  ]

  pub All-kept : (p : A → Bool) (xs : List A) → All (λ x. p x ≡ true) (keep p xs)
  unfolding keep
  All-kept p [] = tt
  All-kept p (x ∷ xs) = elim (Bool-cases (p x)) [
    | inl holds ↦ rw (holds, keep) (holds, All-kept p xs)
    | inr fails ↦ rw (fails, keep) (All-kept p xs)
  ]

  first_head :
      (p : A → Bool) (y : A) (ys : List A) (x : A) → p y ≡ true → first p (y ∷ ys) ≡ some x → y ≡ x
  unfolding first
  first_head p y ys x holds e = ground (arith, holds, e)

  pub first-All :
      (P : A → Type 0) (p : A → Bool) (xs : List A) (x : A)
      → All P xs
      → first p xs ≡ some x
      → P x × (p x ≡ true)
  unfolding first
  first-All P p [] x h e = cc
  first-All P p (y ∷ ys) x h e = elim (Bool-cases (p y)) [
    | inl holds ↦ subst (λ z. P z × (p z ≡ true)) (first_head p y ys x holds e) (h.0, holds)
    | inr fails ↦ first-All P p ys x h.1 (ground (arith, e, fails))
  ]

  pub All-map_to :
      (P : A → Type 0) (f : A → A) (xs : List A)
      → ((x : A) → P x → P (f x))
      → All P xs
      → All P (map f xs)
  All-map_to P f [] g h = tt
  All-map_to P f (x ∷ xs) g h = (g x h.0, All-map_to P f xs g h.1)

  pub first-holds : (p : A → Bool) (xs : List A) (x : A) → first p xs ≡ some x → p x ≡ true
  unfolding first
  first-holds p [] x e = cc
  first-holds p (y ∷ ys) x e = elim (Bool-cases (p y)) [
    | inl holds ↦ subst (λ z. p z ≡ true) (first_head p y ys x holds e) holds
    | inr fails ↦ first-holds p ys x (ground (arith, e, fails))
  ]
