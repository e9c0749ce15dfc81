-- ===== src/Common/Keys.antt =====
-- Equality tests as an interface, and membership in a list of keys (Python's `in`).
use Prim.Native.Nat.{ℕ}
use Prim.Native.String.{String}
use mathlib.Core.Path.{◌≡◌, refl, ap, subst}
use mathlib.Core.Logic.{◌↔◌, inl, inr}
use mathlib.Core.Bool.{Bool, true, false, ◌||◌, ◌&&◌}
use mathlib.Core.List.{List, [], ◌∷◌, ◌++◌}
use native.Mathlib.Omega.{arith}
use text.Mathlib.Text.{◌==◌ as str_eq}
use text.Mathlib.TextEquality.{eq_iff}
use chess_blunder_trainer.Common.Lists.{keep, All}
use chess_blunder_trainer.Common.Tests.{nat_beq, nat_beq_iff, Bool-cases, if◌then◌else◌}

pub record Eq {ℓ} (A : Type ℓ) : Type ℓ where
  pub beq : A → A → Bool
  pub beq_iff : (a b : A) → (beq a b ≡ true) ↔ (a ≡ b)

-- the types whose values the program uses as keys
instance abbrev pub string_eq : Eq String
string_eq = record { beq_iff = eq_iff; beq = str_eq }

instance abbrev pub nat_eq : Eq ℕ
nat_eq = record { beq_iff = nat_beq_iff; beq = nat_beq }

-- Python's `==` on keys
infix 50 ◌==◌
abbrev pub ◌==◌ {ℓ} : {A : Type ℓ} ⦃e : Eq A⦄ → A → A → Bool
◌==◌ ⦃e⦄ = e.beq

module _ {ℓ} {A : Type ℓ} ⦃e : Eq A⦄ where
  unfoldable pub contains : List A → A → Bool
  contains [] key = false
  contains (k ∷ rest) key = k == key || contains rest key

  pub eq_refl : (a : A) → (a == a) ≡ true
  eq_refl a = (e.beq_iff a a).1 refl

  pub contains-append :
      (xs ys : List A) (a : A) → contains (xs ++ ys) a ≡ contains xs a || contains ys a
  unfolding contains
  contains-append [] ys a = refl
  contains-append (x ∷ xs) ys a = ground (arith, contains-append xs ys a)

  -- `s.add(a)` on a set that is kept as a list without repetitions
  unfoldable pub add_key : A → List A → List A
  add_key a xs = if contains xs a then xs else xs ++ a ∷ []

  pub contains-add_key :
      (a b : A) (xs : List A) → contains (add_key a xs) b ≡ contains xs b || a == b
  unfolding add_key contains
  contains-add_key a b xs = ground (arith, contains-append xs (a ∷ []) b, e.beq_iff a b)

  -- `s.discard(a)`
  unfoldable pub discard : A → List A → List A
  discard a [] = []
  discard a (x ∷ xs) = let rest = discard a xs in if x == a then rest else x ∷ rest

  pub contains-discard :
      (a b : A) (xs : List A)
      → contains (discard a xs) b ≡ (if a == b then false else contains xs b)
  unfolding discard contains
  contains-discard a b [] = ground arith
  contains-discard a b (x ∷ xs) =
      ground (arith, contains-discard a b xs, e.beq_iff x a, e.beq_iff x b, e.beq_iff a b)

  -- no key occurs twice
  abbrev pub Unique : List A → Type 0
  Unique [] = Unit
  Unique (x ∷ xs) = (contains xs x ≡ false) × Unique xs

  pub Unique-snoc :
      (xs : List A) (a : A) → Unique xs → contains xs a ≡ false → Unique (xs ++ a ∷ [])
  unfolding contains
  Unique-snoc [] a u h = (refl, tt)
  Unique-snoc (x ∷ xs) a u h = (
    ground (arith, contains-append xs (a ∷ []) x, e.beq_iff a x, e.beq_iff x a),
    Unique-snoc xs a u.1 (ground (arith)),
  )

  pub Unique-add_key : (a : A) (xs : List A) → Unique xs → Unique (add_key a xs)
  unfolding add_key
  Unique-add_key a xs u = elim (Bool-cases (contains xs a)) [
    | inl old ↦ rw old u
    | inr new ↦ rw new (Unique-snoc xs a u new)
  ]

  pub contains-keep :
      (p : A → Bool) (xs : List A) (a : A) → contains (keep p xs) a ≡ contains xs a && p a
  unfolding contains keep
  contains-keep p [] a = refl
  contains-keep p (x ∷ xs) a =
      ground (arith, contains-keep p xs a, e.beq_iff x a, ap {B = Bool} p {x = x} {y = a})

  pub All-at {κ} : (P : A → Type κ) (xs : List A) (a : A) → All P xs → contains xs a ≡ true → P a
  unfolding contains
  All-at P [] a h m = cc
  All-at P (x ∷ xs) a h m = elim (Bool-cases (x == a)) [
    | inl same ↦ subst P ((e.beq_iff x a).0 same) h.0
    | inr other ↦ All-at P xs a h.1 (ground arith)
  ]

  pub All-intro {κ} :
      {P : A → Type κ} (xs : List A) → ((a : A) → contains xs a ≡ true → P a) → All P xs
  unfolding contains
  All-intro [] f = tt
  All-intro (x ∷ xs) f =
      (f x (ground (arith, eq_refl x)), All-intro xs (λ a m. f a (ground (arith))))
