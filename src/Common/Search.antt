-- ===== src/Common/Search.antt =====
-- Python's loops over a sequence that return the first result, collect results, or take a maximum, and the
-- early returns of a function that may give None.
use Prim.Native.Nat.{ℕ, ◌≤◌}
use mathlib.Core.Path.{◌≡◌, refl, ap, subst}
use mathlib.Core.Bool.{Bool, true, false}
use mathlib.Core.Option.{Option, none, some}
use mathlib.Core.List.{List, [], ◌∷◌}
use mathlib.Core.Logic.{◌⊎◌, inl, inr}
use native.Mathlib.Omega.{arith}
use chess_blunder_trainer.Common.Tests.{ltb, if◌then◌else◌, Bool-cases, if_both}
use chess_blunder_trainer.Common.Lists.{All}

module _ {κ} {B : Type κ} where
  abbrev pub or_else : Option B → Option B → Option B
  or_else none rest = rest
  or_else (some b) rest = some b

  abbrev pub prepend : Option B → List B → List B
  prepend none bs = bs
  prepend (some b) bs = b ∷ bs

  pub some-injective : {a b : B} → some a ≡ some b → a ≡ b
  some-injective {a} e = ap (λ (o : Option B). elim o [ none ↦ a | some b ↦ b ]) e

  or_else-some :
      (o rest : Option B) (b : B) → or_else o rest ≡ some b → (o ≡ some b) ⊎ (rest ≡ some b)
  or_else-some none rest b h = inr h
  or_else-some (some a) rest b h = inl h

  or_else-none : (o rest : Option B) → or_else o rest ≡ none → (o ≡ none) × (rest ≡ none)
  or_else-none none rest h = (refl, h)
  or_else-none (some a) rest h = ground (arith, h)

  pub prepend-All {μ} :
      (P : B → Type μ) (o : Option B) (bs : List B)
      → ((b : B) → o ≡ some b → P b)
      → All P bs
      → All P (prepend o bs)
  prepend-All P none bs f h = h
  prepend-All P (some b) bs f h = (f b refl, h)

  All-prepend {μ} :
      (P : B → Type μ) (o : Option B) (bs : List B)
      → All P (prepend o bs)
      → ((b : B) → o ≡ some b → P b) × All P bs
  All-prepend P none bs h = (λ b e. ground (arith, e), h)
  All-prepend P (some a) bs h = (λ b e. subst P (some-injective e) h.0, h.1)

  pub none-some : {b : B} → ◌≡◌ {A = Option B} none (some b) → ⊥
  none-some h = ground (arith, h)

module _ {ℓ κ} {A : Type ℓ} {B : Type κ} where
  -- `if x is None: return None`, and the rest of the function
  abbrev pub and_then : Option A → (A → Option B) → Option B
  and_then none f = none
  and_then (some a) f = f a

  -- a result that is there has passed the early return
  pub and_then-elim {μ} :
      {C : Type μ} (o : Option A) (f : A → Option B) (b : B)
      → and_then o f ≡ some b
      → ((a : A) → o ≡ some a → f a ≡ some b → C)
      → C
  and_then-elim none f b h next = absurd (none-some h)
  and_then-elim (some a) f b h next = next a refl h

  -- `for x in xs:` with `return` of the first result that is there
  unfoldable pub first_some : (A → Option B) → List A → Option B
  first_some f [] = none
  first_some f (x ∷ xs) = or_else (f x) (first_some f xs)

  pub first_some-found :
      (f : A → Option B) (xs : List A) (b : B) → first_some f xs ≡ some b → (x : A) × (f x ≡ some b)
  unfolding first_some
  first_some-found f [] b h = ground (arith, h)
  first_some-found f (x ∷ xs) b h = elim (or_else-some (f x) (first_some f xs) b h) [
    | inl here ↦ (x, here)
    | inr later ↦ first_some-found f xs b later
  ]

  pub first_some-none :
      (f : A → Option B) (xs : List A) → first_some f xs ≡ none → All (λ x. f x ≡ none) xs
  unfolding first_some
  first_some-none f [] h = tt
  first_some-none f (x ∷ xs) h =
      let (here, later) = or_else-none (f x) (first_some f xs) h in
      (here, first_some-none f xs later)

  -- a comprehension that collects the results that are there
  unfoldable pub map_some : (A → Option B) → List A → List B
  map_some f [] = []
  map_some f (x ∷ xs) = prepend (f x) (map_some f xs)

  pub map_some-All {μ} :
      (P : B → Type μ) (f : A → Option B) (xs : List A)
      → ((x : A) (b : B) → f x ≡ some b → P b)
      → All P (map_some f xs)
  unfolding map_some
  map_some-All P f [] h = tt
  map_some-All P f (x ∷ xs) h = prepend-All P (f x) (map_some f xs) (h x) (map_some-All P f xs h)

  pub map_some_complete {μ} :
      (P : B → Type μ) (f : A → Option B) (xs : List A)
      → All P (map_some f xs)
      → All (λ x. (b : B) → f x ≡ some b → P b) xs
  unfolding map_some
  map_some_complete P f [] h = tt
  map_some_complete P f (x ∷ xs) h =
      let (here, later) = All-prepend P (f x) (map_some f xs) h in
      (here, map_some_complete P f xs later)

module _ {ℓ} {A : Type ℓ} where
  -- a guard that returns None
  abbrev pub when : Bool → Option A → Option A
  when true o = o
  when false o = none

  pub when-elim {μ} :
      {C : Type μ} (c : Bool) (o : Option A) (a : A)
      → when c o ≡ some a
      → (c ≡ true → o ≡ some a → C)
      → C
  when-elim true o a h next = next refl h
  when-elim false o a h next = absurd (none-some h)

  -- `max(xs, key=...)` of a list that is not empty: the first of the greatest
  unfoldable pub max_by : (A → ℕ) → A → List A → A
  max_by key best [] = best
  max_by key best (x ∷ xs) = max_by key (if ltb (key best) (key x) then x else best) xs

  later-bound :
      (key : A → ℕ) (a b : A)
      → let c = if ltb (key a) (key b) then b else a in (key a ≤ key c) × (key b ≤ key c)
  later-bound key a b = elim (Bool-cases (ltb (key a) (key b))) [
    | inl less ↦ rw less (ground (arith, less), omega arith)
    | inr other ↦ rw other (omega arith, ground (arith, other))
  ]

  pub max_by-bound :
      (key : A → ℕ) (best : A) (xs : List A)
      → (key best ≤ key (max_by key best xs)) × All (λ y. key y ≤ key (max_by key best xs)) xs
  unfolding max_by
  max_by-bound key best [] = (omega arith, tt)
  max_by-bound key best (x ∷ xs) =
      let (here, later) = max_by-bound key (if ltb (key best) (key x) then x else best) xs in
      let (old, new) = later-bound key best x in
      (omega (arith, old, here), (omega (arith, new, here), later))

  pub max_by-All {μ} :
      (P : A → Type μ) (key : A → ℕ) (best : A) (xs : List A)
      → P best
      → All P xs
      → P (max_by key best xs)
  unfolding max_by
  max_by-All P key best [] p h = p
  max_by-All P key best (x ∷ xs) p h =
      max_by-All P key (if ltb (key best) (key x) then x else best) xs
        (if_both P (ltb (key best) (key x)) x best h.0 p) h.1
