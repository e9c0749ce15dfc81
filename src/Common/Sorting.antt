-- ===== src/Common/Sorting.antt =====
-- Python's `sorted(..., reverse=True)` on numbers, and how many of a list pass a test.
use Prim.Native.Nat.{ℕ, ◌+◌, ◌≤◌}
use mathlib.Core.Path.{◌≡◌, refl}
use mathlib.Core.Logic.{inl, inr}
use mathlib.Core.Bool.{Bool}
use mathlib.Core.List.{List, [], ◌∷◌}
use native.Mathlib.Omega.{arith}
use chess_blunder_trainer.Common.Tests.{ltb, leb, if◌then◌else◌, Bool-cases, if_both}
use chess_blunder_trainer.Common.Lists.{length, All, All-map}

unfoldable pub insert_desc : ℕ → List ℕ → List ℕ
insert_desc v [] = v ∷ []
insert_desc v (w ∷ ws) = let rest = insert_desc v ws in if leb w v then v ∷ w ∷ ws else w ∷ rest

unfoldable pub sort_desc : List ℕ → List ℕ
sort_desc [] = []
sort_desc (v ∷ vs) = insert_desc v (sort_desc vs)

abbrev pub count {ℓ} : {A : Type ℓ} → (A → Bool) → List A → ℕ
count p [] = 0
count p (x ∷ xs) = (if p x then 1 else 0) + count p xs

abbrev Desc : List ℕ → Type 0
Desc [] = Unit
Desc (v ∷ vs) = All (λ w. w ≤ v) vs × Desc vs

count-insert_desc :
    (p : ℕ → Bool) (v : ℕ) (ws : List ℕ) → count p (insert_desc v ws) ≡ count p (v ∷ ws)
unfolding insert_desc
count-insert_desc p v [] = refl
count-insert_desc p v (w ∷ ws) = ground (arith, count-insert_desc p v ws)

pub count-sort_desc : (p : ℕ → Bool) (vs : List ℕ) → count p (sort_desc vs) ≡ count p vs
unfolding sort_desc
count-sort_desc p [] = refl
count-sort_desc p (v ∷ vs) =
    ground (arith, count-insert_desc p v (sort_desc vs), count-sort_desc p vs)

All-insert_desc : (P : ℕ → Type 0) (v : ℕ) (ws : List ℕ) → P v → All P ws → All P (insert_desc v ws)
unfolding insert_desc
All-insert_desc P v [] p h = (p, tt)
All-insert_desc P v (w ∷ ws) p h =
    if_both (All P) (leb w v) (v ∷ w ∷ ws) (w ∷ insert_desc v ws) (p, h)
      (h.0, All-insert_desc P v ws p h.1)

insert_desc-Desc : (v : ℕ) (ws : List ℕ) → Desc ws → Desc (insert_desc v ws)
unfolding insert_desc
insert_desc-Desc v [] d = (tt, tt)
insert_desc-Desc v (w ∷ ws) d = elim (Bool-cases (leb w v)) [
  | inl less ↦
      let below : w ≤ v = ground (arith, less) in
      rw less ((below, All-map (λ x x_below. omega (arith, below, x_below)) ws d.0), d)
  | inr greater ↦
      rw greater
        (All-insert_desc (λ x. x ≤ w) v ws (ground (arith, greater)) d.0, insert_desc-Desc v ws d.1)
]

sort_desc-Desc : (vs : List ℕ) → Desc (sort_desc vs)
unfolding sort_desc
sort_desc-Desc [] = tt
sort_desc-Desc (v ∷ vs) = insert_desc-Desc v (sort_desc vs) (sort_desc-Desc vs)

count-above : (w : ℕ) (ws : List ℕ) → All (λ x. x ≤ w) ws → count (λ x. ltb w x) ws ≡ 0
count-above w [] h = refl
count-above w (x ∷ xs) h = ground (arith, h.0, count-above w xs h.1)

-- `values[1] if len(values) > 1 else values[0]`
abbrev pub second_or_first : List ℕ → ℕ
second_or_first [] = 0
second_or_first (v ∷ []) = v
second_or_first (v ∷ w ∷ vs) = w

abbrev IsSecond : List ℕ → List ℕ → Type 0
IsSecond vs us =
    (2 ≤ count (λ v. leb (second_or_first us) v) vs)
    × (count (λ v. ltb (second_or_first us) v) vs ≤ 1)

-- in a sorted list of two or more, the second is exceeded at most once and reached at least twice
IsSecond-Desc : (vs : List ℕ) → Desc vs → 2 ≤ length vs → IsSecond vs vs
IsSecond-Desc [] d h = ground (arith, h)
IsSecond-Desc (v ∷ []) d h = ground (arith, h)
IsSecond-Desc (v ∷ w ∷ vs) d h = (ground (arith, d.0.0), ground (arith, count-above w vs d.1.0))

length-count : (vs : List ℕ) → count (λ v. leb 0 v) vs ≡ length vs
length-count [] = refl
length-count (v ∷ vs) = ground (arith, length-count vs)

pub second_highest :
    (vs : List ℕ)
    → 2 ≤ length vs
    → (2 ≤ count (λ v. leb (second_or_first (sort_desc vs)) v) vs)
      × (count (λ v. ltb (second_or_first (sort_desc vs)) v) vs ≤ 1)
second_highest vs h =
    let us = sort_desc vs in
    let same = count-sort_desc (λ v. leb 0 v) vs in
    let second =
      IsSecond-Desc us (sort_desc-Desc vs)
        (omega (arith, h, same, length-count vs, length-count us)) in
    (
      omega (arith, second.0, count-sort_desc (λ v. leb (second_or_first us) v) vs),
      omega (arith, second.1, count-sort_desc (λ v. ltb (second_or_first us) v) vs),
    )
