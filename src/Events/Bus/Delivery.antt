-- ===== src/Events/Bus/Delivery.antt =====
-- Who receives what from the bus of blunder_tutor/events/event_bus.py, after any sequence of operations.
use chess_blunder_trainer.Common.{
  ℕ, ◌+◌, ◌<◌, ◌≡◌, refl, true, false, List, [], ◌∷◌, ◌++◌, ◌==◌, ◌&&◌, not, if◌then◌else◌, nat_eq,
  contains, contains-append, Unique, Unique-snoc, Bool-cases, inl, inr, arith, eq_refl, nat_beq_iff,
}
use chess_blunder_trainer.Common.Dict
use chess_blunder_trainer.Common.Dict.{Dict, get-put}
use chess_blunder_trainer.Events.Types.{EventType, Event, event_type_eq}
use chess_blunder_trainer.Events.Bus.{EventBus, subscribers_of, contents, deliver, remove_first}

-- No queue is subscribed twice for one type of event, and new queues are new.
pub record Sound (xs ys : List ℕ) (next : ℕ) : Type 0 where
  pub unique : Unique (xs ++ ys)
  pub fresh : (q : ℕ) → contains (xs ++ ys) q ≡ true → q < next

abbrev pub IsBus : EventBus → Type 0
IsBus b = (t : EventType) → Sound (subscribers_of b t) b.all_subscribers b.next

pub contents-put :
    (d : Dict ℕ (List Event)) (x q : ℕ) (es : List Event)
    → contents (Dict.put d x es) q ≡ (if x == q then es else contents d q)
unfolding contents
contents-put d x q es = ground (arith, get-put d x q es)

pub contents-deliver :
    (qs : List ℕ) (e : Event) (d : Dict ℕ (List Event)) (q : ℕ)
    → Unique qs
    → contents (deliver qs e d) q ≡ (if contains qs q then contents d q ++ e ∷ [] else contents d q)
unfolding deliver contains
contents-deliver [] e d q u = refl
contents-deliver (x ∷ qs) e d q u = ground (
  arith,
  contents-deliver qs e (Dict.put d x (contents d x ++ e ∷ [])) q u.1,
  contents-put d x q (contents d x ++ e ∷ []),
)

pub contains-remove_first :
    (q x : ℕ) (xs : List ℕ)
    → Unique xs
    → contains (remove_first q xs) x ≡ contains xs x && not (q == x)
unfolding remove_first contains
contains-remove_first q x [] u = refl
contains-remove_first q x (y ∷ ys) u = ground (arith, contains-remove_first q x ys u.1)

Unique-remove_first : (q : ℕ) (xs : List ℕ) → Unique xs → Unique (remove_first q xs)
unfolding remove_first
Unique-remove_first q [] u = tt
Unique-remove_first q (y ∷ ys) u = elim (Bool-cases (y == q)) [
  | inl same ↦ rw (same, remove_first) u.1
  | inr other ↦
      rw (other, remove_first)
        (ground (arith, contains-remove_first q y ys u.1), Unique-remove_first q ys u.1)
]

-- `Unique` of an append, by its parts
Unique-append :
    (xs ys : List ℕ)
    → Unique xs
    → Unique ys
    → ((x : ℕ) → contains xs x ≡ true → contains ys x ≡ false)
    → Unique (xs ++ ys)
unfolding contains
Unique-append [] ys u v apart = v
Unique-append (x ∷ xs) ys u v apart = (
  ground (arith, contains-append xs ys x, apart x, eq_refl x),
  Unique-append xs ys u.1 v (λ z m. ground (arith, apart z)),
)

pub Unique-append_parts :
    (xs ys : List ℕ)
    → Unique (xs ++ ys)
    → Unique xs × Unique ys × ((x : ℕ) → contains xs x ≡ true → contains ys x ≡ false)
unfolding contains
Unique-append_parts [] ys u = (tt, u, λ x m. cc)
Unique-append_parts (x ∷ xs) ys u =
    let (ux, uy, apart) = Unique-append_parts xs ys u.1 in
    (
      (ground (arith, contains-append xs ys x), ux),
      uy,
      λ z m. ground (arith, apart z, contains-append xs ys x, nat_eq.beq_iff x z),
    )

Unique-append_snoc :
    (xs ys : List ℕ) (n : ℕ)
    → Unique (xs ++ ys)
    → contains (xs ++ ys) n ≡ false
    → Unique (xs ++ (ys ++ n ∷ [])) × Unique ((xs ++ n ∷ []) ++ ys)
unfolding contains
Unique-append_snoc xs ys n u h =
    let (ux, uy, apart) = Unique-append_parts xs ys u in
    (
      Unique-append xs (ys ++ n ∷ []) ux
          (Unique-snoc ys n uy (ground (arith, contains-append xs ys n)))
          (λ z m. ground (
            arith,
            apart z,
            contains-append ys (n ∷ []) z,
            contains-append xs ys n,
            nat_beq_iff n z,
          )),
      Unique-append (xs ++ n ∷ []) ys
          (Unique-snoc xs n ux (ground (arith, contains-append xs ys n))) uy
          (λ z m. ground (
            arith,
            apart z,
            contains-append xs (n ∷ []) z,
            contains-append xs ys n,
            nat_beq_iff n z,
          )),
    )

Unique-append_removed :
    (xs ys : List ℕ) (q : ℕ)
    → Unique (xs ++ ys)
    → Unique (xs ++ remove_first q ys) × Unique (remove_first q xs ++ ys)
Unique-append_removed xs ys q u =
    let (ux, uy, apart) = Unique-append_parts xs ys u in
    (
      Unique-append xs (remove_first q ys) ux (Unique-remove_first q ys uy)
          (λ z m. ground (arith, apart z, contains-remove_first q z ys uy)),
      Unique-append (remove_first q xs) ys (Unique-remove_first q xs ux) uy
          (λ z m. ground (arith, apart z, contains-remove_first q z xs ux)),
    )

-- the subscribers of a type after a write to the table
pub subscribers_of-put :
    (b : EventBus) (t t' : EventType) (qs : List ℕ)
    → subscribers_of (record b { subscribers = Dict.put b.subscribers t qs }) t'
      ≡ (if t == t' then qs else subscribers_of b t')
unfolding subscribers_of
subscribers_of-put b t t' qs = ground (arith, get-put b.subscribers t t' qs)

pub not_old : (xs ys : List ℕ) (n : ℕ) → Sound xs ys n → contains (xs ++ ys) n ≡ false
not_old xs ys n h = elim (Bool-cases (contains (xs ++ ys) n)) [
  | inl old ↦ absurd (omega (arith, h.fresh n old))
  | inr new ↦ new
]

pub Sound-add_all : (xs ys : List ℕ) (n : ℕ) → Sound xs ys n → Sound xs (ys ++ n ∷ []) (n + 1)
unfolding contains
Sound-add_all xs ys n h = record {
  unique = (Unique-append_snoc xs ys n h.unique (not_old xs ys n h)).0;
  fresh = λ q m. ground (
    arith,
    h.fresh q,
    contains-append xs ys q,
    contains-append xs (ys ++ n ∷ []) q,
    contains-append ys (n ∷ []) q,
    nat_beq_iff n q,
  );
}

pub Sound-add_some : (xs ys : List ℕ) (n : ℕ) → Sound xs ys n → Sound (xs ++ n ∷ []) ys (n + 1)
unfolding contains
Sound-add_some xs ys n h = record {
  unique = (Unique-append_snoc xs ys n h.unique (not_old xs ys n h)).1;
  fresh = λ q m. ground (
    arith,
    h.fresh q,
    contains-append xs ys q,
    contains-append (xs ++ n ∷ []) ys q,
    contains-append xs (n ∷ []) q,
    nat_beq_iff n q,
  );
}

pub Sound-suc : (xs ys : List ℕ) (n : ℕ) → Sound xs ys n → Sound xs ys (n + 1)
Sound-suc xs ys n h = record { unique = h.unique; fresh = λ q m. omega (arith, h.fresh q m) }

pub Sound-remove_all : (xs ys : List ℕ) (n q : ℕ) → Sound xs ys n → Sound xs (remove_first q ys) n
Sound-remove_all xs ys n q h =
    let (ux, uy, apart) = Unique-append_parts xs ys h.unique in
    record {
      unique = (Unique-append_removed xs ys q h.unique).0;
      fresh = λ z m. ground (
        arith,
        h.fresh z,
        contains-append xs ys z,
        contains-append xs (remove_first q ys) z,
        contains-remove_first q z ys uy,
      );
    }

pub Sound-remove_some : (xs ys : List ℕ) (n q : ℕ) → Sound xs ys n → Sound (remove_first q xs) ys n
Sound-remove_some xs ys n q h =
    let (ux, uy, apart) = Unique-append_parts xs ys h.unique in
    record {
      unique = (Unique-append_removed xs ys q h.unique).1;
      fresh = λ z m. ground (
        arith,
        h.fresh z,
        contains-append xs ys z,
        contains-append (remove_first q xs) ys z,
        contains-remove_first q z xs ux,
      );
    }
