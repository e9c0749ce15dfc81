-- ===== src/Tactics/Lines/Found.antt =====
-- What a discovered attack of tactics.py is.
use chess_blunder_trainer.Common.{
  ℕ, ◌≡◌, ◌≢◌, ◌⊎◌, ◌≤◌, refl, ap, sym, ◌∙◌, Bool, true, false, Option, none, some, [], ◌∷◌, not,
  ◌&&◌, nat_eq, arith, inl, inr, subst, if-elim, leb, is_some,
}
use chess_blunder_trainer.Common.Search.{
  and_then-elim, when-elim, first_some-found, some-injective, none-some,
}
use chess_blunder_trainer.Tactics.Board.{
  Piece, ChessMove, ChessBoard, TacticalMotif, squares, of_color, piece_value, is_king, is_slider,
  discovered_attack, discovered_check,
}
use chess_blunder_trainer.Tactics.Pins.{any_square}
use chess_blunder_trainer.Tactics.Lines.{
  build_discovered_motif, is_potential_discoverer, discovered_at, try_discovered_attack,
  discoverer_at, detect_discovered_attack,
}

-- a check when the target is the king, and otherwise an attack on a piece worth at least 300
abbrev pub IsDiscoveryOf : ℕ → ℕ → ℕ → Piece → TacticalMotif → Type 0
IsDiscoveryOf attacker_sq move_from target_sq target m =
    (m.squares_of ≡ attacker_sq ∷ move_from ∷ target_sq ∷ [])
    × (m.material_gain ≡ piece_value target.piece_type)
    × (((is_king target.piece_type ≡ true) × (m.pattern ≡ discovered_check))
        ⊎ ((is_king target.piece_type ≡ false)
            × (300 ≤ m.material_gain)
            × (m.pattern ≡ discovered_attack)))

build_discovered_motif-IsDiscoveryOf :
    (attacker_sq : ℕ) (attacker : Piece) (move_from target_sq : ℕ) (target : Piece)
    (m : TacticalMotif)
    → build_discovered_motif attacker_sq attacker move_from target_sq target ≡ some m
    → IsDiscoveryOf attacker_sq move_from target_sq target m
unfolding build_discovered_motif
build_discovered_motif-IsDiscoveryOf attacker_sq attacker move_from target_sq target m h =
    let Found = IsDiscoveryOf attacker_sq move_from target_sq target in
    if-elim (is_king target.piece_type) _ _ (some m) h
      (λ is_check e. subst Found (some-injective e) (refl, refl, inl (is_check, refl)))
      (λ no_check rest.
        if-elim (leb 300 (piece_value target.piece_type)) _ _ (some m) rest
          (λ heavy e.
            subst Found (some-injective e)
              (refl, refl, inr (no_check, ground (arith, heavy), refl)))
          (λ light e. absurd (none-some e)))

-- a slider of the color that is not the piece on the destination
discoverer-is :
    (o : Option Piece) (color : Bool) (sq move_to : ℕ) (attacker : Piece)
    → is_potential_discoverer o color sq move_to ≡ true
    → o ≡ some attacker
    → (is_some (of_color color (some attacker)) ≡ true)
      × (sq ≢ move_to)
      × (is_slider attacker.piece_type ≡ true)
discoverer-is none color sq move_to attacker h e = absurd (none-some e)
discoverer-is (some p) color sq move_to attacker h e =
    subst
      (λ (q : Piece).
        (is_some (of_color color (some q)) ≡ true)
        × (sq ≢ move_to)
        × (is_slider q.piece_type ≡ true))
      (some-injective e)
      (
        ground (arith, h),
        λ same. ground (arith, h, same, nat_eq.beq_iff sq move_to),
        ground (arith, h),
      )

-- where f holds of two squares and not of the second with itself, they are not the same
not_same :
    (f : ℕ → ℕ → Bool) (sq other : ℕ) → f other other ≡ false → f sq other ≡ true → sq ≢ other
not_same f sq other own line same =
    let mine = ap (λ (s : ℕ). f s other) same in ground (arith, own, line, mine)

module _ {B : Type 0} ⦃chess : ChessBoard B⦄ where
  abbrev pub IsDiscovery : B → ChessMove → Piece → TacticalMotif → Type 0
  IsDiscovery board move mover m =
      (attacker_sq : ℕ) × (attacker : Piece) × (target_sq : ℕ) × (target : Piece) × (chess.piece_at
          board attacker_sq
        ≡ some attacker)
      × (is_some (of_color mover.color (some attacker)) ≡ true)
      × (attacker_sq ≢ move.to_square)
      × (attacker_sq ≢ move.from_square)
      × (any_square (chess.ray attacker_sq move.from_square) squares ≡ true)
      × (is_slider attacker.piece_type ≡ true)
      × (chess.attacks board attacker_sq target_sq ≡ false)
      × (chess.attacks (chess.push board move) attacker_sq target_sq ≡ true)
      × (of_color (not mover.color) (chess.piece_at (chess.push board move) target_sq)
          ≡ some target)
      × IsDiscoveryOf attacker_sq move.from_square target_sq target m

  -- A discovered attack that is reported of a move is one by a slider of the mover's side, which is neither the mover
  -- nor a piece on its destination and which stands on a line with the square that the mover leaves. It is on an
  -- enemy piece that the slider attacks after the move and did not attack before. The pattern is a discovered check
  -- exactly when that piece is the king, and any other piece attacked is worth at least 300. A square has no ray with
  -- itself, as in python-chess.
  pub detect_discovered_attack-IsDiscovery :
      (board : B) (move : ChessMove) (mover : Piece) (m : TacticalMotif)
      → ((sq : ℕ) → any_square (chess.ray sq sq) squares ≡ false)
      → chess.piece_at board move.from_square ≡ some mover
      → detect_discovered_attack board move ≡ some m
      → IsDiscovery board move mover m
  unfolding detect_discovered_attack discoverer_at try_discovered_attack discovered_at
  detect_discovered_attack-IsDiscovery board move mover m no_ray there h =
      let after = chess.push board move in
      and_then-elim (chess.piece_at board move.from_square) _ m h (λ piece there' h1.
        let (attacker_sq, h2) = first_some-found _ squares m h1 in
        when-elim
          (is_potential_discoverer (chess.piece_at board attacker_sq) piece.color attacker_sq
            move.to_square)
          _ m h2
          (λ able h3. and_then-elim (chess.piece_at board attacker_sq) _ m h3 (λ attacker stands h4.
            when-elim (any_square (chess.ray attacker_sq move.from_square) squares) _ m h4
              (λ line h5.
                let (target_sq, h6) = first_some-found _ squares m h5 in
                when-elim
                  (chess.attacks after attacker_sq target_sq
                    && not (chess.attacks board attacker_sq target_sq))
                  _ m h6
                  (λ new h7.
                    and_then-elim (of_color (not piece.color) (chess.piece_at after target_sq)) _ m
                      h7
                      (λ target enemy h8.
                        let (own, other, slider) =
                          discoverer-is (chess.piece_at board attacker_sq) piece.color attacker_sq
                            move.to_square attacker able stands in
                        subst (λ (p : Piece). IsDiscovery board move p m)
                          (some-injective (sym there' ∙ there))
                          (
                            attacker_sq,
                            attacker,
                            target_sq,
                            target,
                            stands,
                            own,
                            other,
                            not_same (λ a b. any_square (chess.ray a b) squares) attacker_sq
                                move.from_square (no_ray move.from_square) line,
                            line,
                            slider,
                            ground (arith, new),
                            ground (arith, new),
                            enemy,
                            build_discovered_motif-IsDiscoveryOf attacker_sq attacker
                                move.from_square target_sq target m h8,
                          )))))))
