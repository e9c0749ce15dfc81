-- ===== src/Tactics/Blunder/Explained.antt =====
-- How the explanation of a blunder relates to what the detectors of tactics.py find.
use chess_blunder_trainer.Common.{
  ◌≡◌, ◌≤◌, refl, Bool, true, false, Option, none, some, List, [], ◌∷◌, ◌++◌, not, All, All-map,
  keep, arith, Bool-cases, inl, inr, subst, if◌then◌else◌, if_both, ◌⊎◌,
}
use chess_blunder_trainer.Common.Search.{
  map_some, map_some_complete, max_by-bound, max_by-All, some-injective, or_else, prepend-All,
}
use chess_blunder_trainer.Tactics.Board.{ChessMove, ChessBoard, TacticalMotif}
use chess_blunder_trainer.Tactics.Blunder.{
  missed, created, greatest, reason_of, pre_existing, new_weaknesses, move_detectors,
  analyze_move_tactics, analyze_position_weaknesses, missed_tactic_of, attach_allowed_tactic,
  classify_blunder_tactics, attach_new_weakness,
}

-- `o` is a motif of the list with the greatest gain, and is none only when the list is empty
abbrev pub IsGreatest : List TacticalMotif → Option TacticalMotif → Type 1
IsGreatest ms none = (P : TacticalMotif → Type 0) → All P ms
IsGreatest ms (some m) =
    All (λ (t : TacticalMotif). t.material_gain ≤ m.material_gain) ms
    × ((P : TacticalMotif → Type 0) → All P ms → P m)

pub greatest-IsGreatest : (ms : List TacticalMotif) → IsGreatest ms (greatest ms)
greatest-IsGreatest [] = λ P. tt
greatest-IsGreatest (m ∷ ms) = (
  max_by-bound (λ (t : TacticalMotif). t.material_gain) m ms,
  λ P h. max_by-All P (λ (t : TacticalMotif). t.material_gain) m ms h.0 h.1,
)

-- A weakness that is the worst of those in `after` that were not there before; none when all were there.
abbrev pub IsWorstNew : List TacticalMotif → List TacticalMotif → Option TacticalMotif → Type 1
IsWorstNew before after none = All (λ w. pre_existing before w ≡ true) after × Unit {1}
IsWorstNew before after (some m) =
    (pre_existing before m ≡ false)
    × All (λ (w : TacticalMotif). pre_existing before w ≡ false → w.material_gain ≤ m.material_gain)
        after
    × ((P : TacticalMotif → Type 0) → All P after → P m)

All-keep :
    (P : TacticalMotif → Type 0) (p : TacticalMotif → Bool) (ms : List TacticalMotif)
    → ((w : TacticalMotif) → p w ≡ true → P w)
    → All P (keep p ms)
unfolding keep
All-keep P p [] h = tt
All-keep P p (m ∷ ms) h = elim (Bool-cases (p m)) [
  | inl kept ↦ rw kept (h m kept, All-keep P p ms h)
  | inr dropped ↦ rw dropped (All-keep P p ms h)
]

All-kept :
    (P : TacticalMotif → Type 0) (p : TacticalMotif → Bool) (ms : List TacticalMotif)
    → All P (keep p ms)
    → All (λ w. p w ≡ true → P w) ms
unfolding keep
All-kept P p [] h = tt
All-kept P p (m ∷ ms) h = elim (Bool-cases (p m)) [
  | inl kept ↦
      let both : All P (m ∷ keep p ms) =
        subst (λ b. All P (if b then m ∷ keep p ms else keep p ms)) kept h in
      (λ e. both.0, All-kept P p ms both.1)
  | inr dropped ↦
      let rest : All P (keep p ms) =
        subst (λ b. All P (if b then m ∷ keep p ms else keep p ms)) dropped h in
      (λ e. ground (arith, e, dropped), All-kept P p ms rest)
]

All-sublist :
    (P : TacticalMotif → Type 0) (p : TacticalMotif → Bool) (ms : List TacticalMotif)
    → All P ms
    → All P (keep p ms)
unfolding keep
All-sublist P p [] h = tt
All-sublist P p (m ∷ ms) h =
    let rest = All-sublist P p ms h.1 in
    if_both (All P) (p m) (m ∷ keep p ms) (keep p ms) (h.0, rest) rest

IsWorstNew-greatest :
    (before after : List TacticalMotif) (o : Option TacticalMotif)
    → IsGreatest (new_weaknesses before after) o
    → IsWorstNew before after o
unfolding new_weaknesses
IsWorstNew-greatest before after none h = (
  All-map (λ w f. ground (arith, f)) after
      (All-kept (λ w. ⊥) (λ w. not (pre_existing before w)) after (h (λ w. ⊥))),
  tt,
)
IsWorstNew-greatest before after (some m) h =
    let p = λ (w : TacticalMotif). not (pre_existing before w) in
    (
      ground (arith, h.1 (λ w. p w ≡ true) (All-keep (λ w. p w ≡ true) p after (λ w kept. kept))),
      All-map (λ w f new. f (ground (arith, new))) after
          (All-kept (λ (w : TacticalMotif). w.material_gain ≤ m.material_gain) p after h.0),
      λ P all. h.1 P (All-sublist P p after all),
    )

worst_or_none :
    (before after : List TacticalMotif) (found worst : Option TacticalMotif)
    → IsWorstNew before after worst
    → IsWorstNew before after (or_else worst none)
      × (found ≡ found)
      × (reason_of missed found ++ reason_of created worst
          ≡ reason_of missed found ++ reason_of created (or_else worst none))
worst_or_none before after found none h = (h, refl, refl)
worst_or_none before after found (some m) h = (h, refl, refl)

module _ {B : Type 0} ⦃chess : ChessBoard B⦄ where
  -- some detector of the five finds this motif
  abbrev pub FoundBy :
      B → ChessMove → List (B → ChessMove → Option TacticalMotif) → TacticalMotif → Type 0
  FoundBy board move [] m = ⊥
  FoundBy board move (d ∷ ds) m = (d board move ≡ some m) ⊎ FoundBy board move ds m

  abbrev found_by : B → ChessMove → List (B → ChessMove → Option TacticalMotif) → List TacticalMotif
  found_by board move =
      map_some (λ (detector : B → ChessMove → Option TacticalMotif). detector board move)

  All-FoundBy :
      (board : B) (move : ChessMove) (ds : List (B → ChessMove → Option TacticalMotif))
      → All (FoundBy board move ds) (found_by board move ds)
  unfolding map_some
  All-FoundBy board move [] = tt
  All-FoundBy board move (d ∷ ds) =
      prepend-All (FoundBy board move (d ∷ ds)) (d board move) (found_by board move ds)
        (λ m e. inl e)
        (All-map (λ m later. inr later) (found_by board move ds) (All-FoundBy board move ds))

  best_found :
      (board : B) (move : ChessMove) (ds : List (B → ChessMove → Option TacticalMotif))
      (o : Option TacticalMotif)
      → IsGreatest (found_by board move ds) o
      → ((m : TacticalMotif) → o ≡ some m → FoundBy board move ds m)
        × All
            (λ (d : B → ChessMove → Option TacticalMotif).
              (t : TacticalMotif)
              → d board move ≡ some t
              → (m : TacticalMotif) × (o ≡ some m) × (t.material_gain ≤ m.material_gain))
            ds
  best_found board move ds none h = (
    λ m e. ground (arith, e),
    All-map (λ d f t e. absurd (f t e)) ds
        (map_some_complete (λ t. ⊥) (λ (d : B → ChessMove → Option TacticalMotif). d board move) ds
          (h (λ t. ⊥))),
  )
  best_found board move ds (some m) h = (
    λ m' e.
        subst (FoundBy board move ds) (some-injective e)
          (h.1 (FoundBy board move ds) (All-FoundBy board move ds)),
    All-map (λ d f t e. (m, refl, f t e)) ds
        (map_some_complete (λ (t : TacticalMotif). t.material_gain ≤ m.material_gain)
          (λ (d : B → ChessMove → Option TacticalMotif). d board move) ds h.0),
  )

  -- The tactic that is reported of a move is one that a detector found. No detector found one with a greater gain,
  -- and none is reported only when no detector found any.
  pub analyze_move_tactics_greatest :
      (board : B) (move : ChessMove)
      → ((m : TacticalMotif)
          → analyze_move_tactics board move ≡ some m
          → FoundBy board move move_detectors m)
        × All
            (λ (d : B → ChessMove → Option TacticalMotif).
              (t : TacticalMotif)
              → d board move ≡ some t
              → (m : TacticalMotif) × (analyze_move_tactics board move ≡ some m)
                × (t.material_gain ≤ m.material_gain))
            move_detectors
  unfolding analyze_move_tactics
  analyze_move_tactics_greatest board move =
      let found = found_by board move move_detectors in
      best_found board move move_detectors (greatest found) (greatest-IsGreatest found)

  -- Without a reply of the opponent, the tactic that a blunder allowed is the worst weakness of the mover's own pieces
  -- after the move that was not there before it, and there is none exactly when the move left only weaknesses
  -- that were there. The stated reasons are the missed tactic of the best move and that weakness, if any.
  pub classify_blunder_tactics_without_reply :
      (board : B) (move : ChessMove) (best : Option ChessMove)
      → let r = classify_blunder_tactics board move best none in
        IsWorstNew
          (analyze_position_weaknesses board (chess.turn board))
          (analyze_position_weaknesses (chess.push board move) (chess.turn board))
          r.allowed_tactic
        × (r.missed_tactic ≡ missed_tactic_of board best)
        × (r.blunder_reason
            ≡ reason_of missed r.missed_tactic ++ reason_of created r.allowed_tactic)
  unfolding classify_blunder_tactics attach_allowed_tactic attach_new_weakness
  classify_blunder_tactics_without_reply board move best =
      let before = analyze_position_weaknesses board (chess.turn board) in
      let after = analyze_position_weaknesses (chess.push board move) (chess.turn board) in
      worst_or_none before after (missed_tactic_of board best)
        (greatest (new_weaknesses before after))
        (IsWorstNew-greatest before after (greatest (new_weaknesses before after))
          (greatest-IsGreatest (new_weaknesses before after)))
