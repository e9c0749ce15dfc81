-- ===== src/Tactics/Pins/Relative.antt =====
-- What the relative pins of tactics.py are, and that no two of them are the same.
use chess_blunder_trainer.Common.{
  ℕ, ◌≡◌, ◌≢◌, ◌<◌, refl, sym, Bool, true, false, Option, none, some, List, [], ◌∷◌, ◌++◌, not,
  ◌&&◌, All, All-append, contains, nat_eq, arith, Bool-cases, inl, inr, subst, leb,
}
use chess_blunder_trainer.Common.Search.{
  and_then-elim, when, when-elim, first_some, first_some-found, some-injective, none-some,
}
use chess_blunder_trainer.Tactics.Board.{
  Piece, king, ChessBoard, TacticalMotif, squares, of_color, piece_value, square_distance,
}
use chess_blunder_trainer.Tactics.Pins.{
  any_square, is_duplicate_pin, relative_pin_motif, is_pinning_attacker, is_pin_behind, is_no_king,
  find_relative_pin_behind, try_relative_pin, pin_through, append_some, scan_pinner_targets,
  scan_attackers, detect_relative_pins,
}

-- the first list has both the target and the attacker that the second begins with
abbrev pub names_pair : List ℕ → List ℕ → Bool
names_pair squares_of [] = false
names_pair squares_of (target ∷ []) = false
names_pair squares_of (target ∷ attacker ∷ rest) =
    contains squares_of target && contains squares_of attacker

abbrev pub NoneNames : TacticalMotif → List TacticalMotif → Type 0
NoneNames m pins = All (λ (p : TacticalMotif). names_pair p.squares_of m.squares_of ≡ false) pins

-- no motif names the target and the attacker of a later one
abbrev pub Distinct : List TacticalMotif → Type 0
Distinct [] = Unit
Distinct (p ∷ pins) =
    All (λ (q : TacticalMotif). names_pair p.squares_of q.squares_of ≡ false) pins × Distinct pins

Distinct-snoc :
    (pins : List TacticalMotif) (m : TacticalMotif)
    → Distinct pins
    → NoneNames m pins
    → Distinct (pins ++ m ∷ [])
Distinct-snoc [] m d h = (tt, tt)
Distinct-snoc (p ∷ pins) m d h = (
  All-append (λ (q : TacticalMotif). names_pair p.squares_of q.squares_of ≡ false) pins (m ∷ []) d.0
      (h.0, tt),
  Distinct-snoc pins m d.1 h.1,
)

duplicate-NoneNames :
    (pins : List TacticalMotif) (target_sq attacker_sq : ℕ)
    → is_duplicate_pin pins target_sq attacker_sq ≡ false
    → All
        (λ (p : TacticalMotif).
          contains p.squares_of target_sq && contains p.squares_of attacker_sq ≡ false)
        pins
unfolding is_duplicate_pin
duplicate-NoneNames [] target_sq attacker_sq h = tt
duplicate-NoneNames (p ∷ pins) target_sq attacker_sq h =
    (ground (arith, h), duplicate-NoneNames pins target_sq attacker_sq (ground (arith, h)))

own_color :
    (color : Bool) (p : Piece) (o : Option Piece)
    → o ≡ some p
    → is_no_king (of_color color o) ≡ true
    → p.color ≡ color
own_color color p none there h = absurd (none-some there)
own_color color p (some q) there h =
    subst (λ (r : Piece). r.color ≡ color) (some-injective there) (ground (arith, h))

no_king :
    (color : Bool) (p : Piece) (o : Option Piece)
    → o ≡ some p
    → is_no_king (of_color color o) ≡ true
    → p.piece_type ≢ king
no_king color p none there h = absurd (none-some there)
no_king color p (some q) there h =
    subst (λ (r : Piece). r.piece_type ≢ king) (some-injective there)
      (λ is_king. ground (arith, h, is_king))

module _ {B : Type 0} ⦃chess : ChessBoard B⦄ where
  -- an own piece, not a king, on the line of the two squares, farther from the attacker than the target
  abbrev pub IsBehind : B → Bool → ℕ → ℕ → ℕ → Piece → Type 0
  IsBehind board color attacker_sq target_sq behind_sq behind =
      (behind_sq ≢ attacker_sq)
      × (behind_sq ≢ target_sq)
      × (chess.ray attacker_sq target_sq behind_sq ≡ true)
      × (square_distance attacker_sq target_sq < square_distance attacker_sq behind_sq)
      × (behind.color ≡ color)
      × (behind.piece_type ≢ king)

  is_pin_behind-IsBehind :
      (board : B) (behind_sq attacker_sq target_sq : ℕ) (color : Bool) (behind : Piece)
      → chess.piece_at board behind_sq ≡ some behind
      → is_pin_behind board behind_sq attacker_sq target_sq
          (chess.ray attacker_sq target_sq)
          (square_distance attacker_sq target_sq)
          color
        ≡ true
      → IsBehind board color attacker_sq target_sq behind_sq behind
  unfolding is_pin_behind
  is_pin_behind-IsBehind board behind_sq attacker_sq target_sq color behind there seen = (
    λ same. ground (arith, seen, (nat_eq.beq_iff behind_sq attacker_sq).1 same),
    λ same. ground (arith, seen, (nat_eq.beq_iff behind_sq target_sq).1 same),
    ground (arith, seen),
    ground (arith, seen),
    own_color color behind (chess.piece_at board behind_sq) there (ground (arith, seen)),
    no_king color behind (chess.piece_at board behind_sq) there (ground (arith, seen)),
  )

  -- A slider of the other side attacks a piece of the color, and farther from it on the same line, on either side,
  -- stands a piece of the color that is worth more and is not the king.
  abbrev pub IsRelativePin : B → Bool → TacticalMotif → Type 0
  IsRelativePin board color m =
      (target_sq : ℕ) × (attacker_sq : ℕ) × (behind_sq : ℕ) × (target : Piece) × (behind : Piece)
      × (m ≡ relative_pin_motif target_sq target attacker_sq behind_sq behind)
      × (is_pinning_attacker (chess.piece_at board attacker_sq) (not color) ≡ true)
      × (chess.attacks board attacker_sq target_sq ≡ true)
      × (of_color color (chess.piece_at board target_sq) ≡ some target)
      × (chess.piece_at board behind_sq ≡ some behind)
      × IsBehind board color attacker_sq target_sq behind_sq behind
      × (piece_value target.piece_type < piece_value behind.piece_type)

  find_relative_pin_behind-sees :
      (board : B) (attacker_sq target_sq : ℕ) (color : Bool) (behind_sq : ℕ)
      → find_relative_pin_behind board attacker_sq target_sq color ≡ some behind_sq
      → is_pin_behind board behind_sq attacker_sq target_sq
          (chess.ray attacker_sq target_sq)
          (square_distance attacker_sq target_sq)
          color
        ≡ true
  unfolding find_relative_pin_behind
  find_relative_pin_behind-sees board attacker_sq target_sq color behind_sq h =
      let ray = chess.ray attacker_sq target_sq in
      let sees = λ (sq : ℕ).
        is_pin_behind board sq attacker_sq target_sq ray (square_distance attacker_sq target_sq)
          color in
      when-elim (any_square ray squares) (first_some (λ sq. when (sees sq) (some sq)) squares)
        behind_sq h
        (λ line search.
          let (sq, found) =
            first_some-found (λ sq. when (sees sq) (some sq)) squares behind_sq search in
          when-elim (sees sq) (some sq) behind_sq found
            (λ seen same. subst (λ s. sees s ≡ true) (some-injective same) seen))

  pin_through-IsRelativePin :
      (board : B) (attacker_sq : ℕ) (color : Bool) (pins : List TacticalMotif) (target_sq : ℕ)
      (m : TacticalMotif)
      → is_pinning_attacker (chess.piece_at board attacker_sq) (not color) ≡ true
      → pin_through board attacker_sq color pins target_sq ≡ some m
      → IsRelativePin board color m × NoneNames m pins
  unfolding pin_through try_relative_pin relative_pin_motif contains
  pin_through-IsRelativePin board attacker_sq color pins target_sq m slider h =
      when-elim (chess.attacks board attacker_sq target_sq) _ m h (λ attacked h1.
        and_then-elim (of_color color (chess.piece_at board target_sq)) _ m h1 (λ target own h2.
          and_then-elim (find_relative_pin_behind board attacker_sq target_sq color) _ m h2
            (λ behind_sq found h3.
              and_then-elim (chess.piece_at board behind_sq) _ m h3 (λ behind there h4.
                when-elim
                  (not (leb (piece_value behind.piece_type) (piece_value target.piece_type))) _ m h4
                  (λ greater h5.
                    when-elim (not (is_duplicate_pin pins target_sq attacker_sq)) _ m h5 (λ new h6.
                      (
                        (
                          target_sq,
                          attacker_sq,
                          behind_sq,
                          target,
                          behind,
                          sym (some-injective h6),
                          slider,
                          attacked,
                          own,
                          there,
                          is_pin_behind-IsBehind board behind_sq attacker_sq target_sq color behind
                              there
                              (find_relative_pin_behind-sees board attacker_sq target_sq color
                                behind_sq found),
                          ground (arith, greater),
                        ),
                        subst (λ (q : TacticalMotif). NoneNames q pins) (some-injective h6)
                            (duplicate-NoneNames pins target_sq attacker_sq (ground (arith, new))),
                      )))))))

  -- the invariant of the two loops
  abbrev pub ArePins : B → Bool → List TacticalMotif → Type 0
  ArePins board color pins = All (IsRelativePin board color) pins × Distinct pins

  append_some-ArePins :
      (board : B) (color : Bool) (pins : List TacticalMotif) (o : Option TacticalMotif)
      → ((m : TacticalMotif) → o ≡ some m → IsRelativePin board color m × NoneNames m pins)
      → ArePins board color pins
      → ArePins board color (append_some pins o)
  append_some-ArePins board color pins none f h = h
  append_some-ArePins board color pins (some m) f h =
      let (is_pin, new) = f m refl in
      (
        All-append (IsRelativePin board color) pins (m ∷ []) h.0 (is_pin, tt),
        Distinct-snoc pins m h.1 new,
      )

  scan_pinner_targets-ArePins :
      (board : B) (attacker_sq : ℕ) (color : Bool) (targets : List ℕ) (pins : List TacticalMotif)
      → is_pinning_attacker (chess.piece_at board attacker_sq) (not color) ≡ true
      → ArePins board color pins
      → ArePins board color (scan_pinner_targets board attacker_sq color targets pins)
  unfolding scan_pinner_targets
  scan_pinner_targets-ArePins board attacker_sq color [] pins slider h = h
  scan_pinner_targets-ArePins board attacker_sq color (sq ∷ rest) pins slider h =
      let found = pin_through board attacker_sq color pins sq in
      scan_pinner_targets-ArePins board attacker_sq color rest (append_some pins found) slider (
        append_some-ArePins board color pins found
          (λ m e. pin_through-IsRelativePin board attacker_sq color pins sq m slider e) h)

  scan_attackers-ArePins :
      (board : B) (color : Bool) (attackers : List ℕ) (pins : List TacticalMotif)
      → ArePins board color pins
      → ArePins board color (scan_attackers board color attackers pins)
  unfolding scan_attackers
  scan_attackers-ArePins board color [] pins h = h
  scan_attackers-ArePins board color (sq ∷ rest) pins h =
      elim (Bool-cases (is_pinning_attacker (chess.piece_at board sq) (not color))) [
        | inl slider ↦ rw slider (
            scan_attackers-ArePins board color rest
              (scan_pinner_targets board sq color squares pins)
              (scan_pinner_targets-ArePins board sq color squares pins slider h))
        | inr other ↦ rw other (scan_attackers-ArePins board color rest pins h)
      ]

  -- Every relative pin that is reported against a color is a slider of the other side that attacks a piece of the
  -- color, where another piece of the color, worth more and not the king, stands on the line of the two, farther from
  -- the attacker than the target, though it may be on the other side of the attacker. No two reported pins have the
  -- same target and attacker.
  pub detect_relative_pins-ArePins :
      (board : B) (color : Bool) → ArePins board color (detect_relative_pins board color)
  unfolding detect_relative_pins
  detect_relative_pins-ArePins board color = scan_attackers-ArePins board color squares [] (tt, tt)
