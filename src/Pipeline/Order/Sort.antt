-- ===== src/Pipeline/Order/Sort.antt =====
-- The topological sort of blunder_tutor/analysis/pipeline/pipeline.py over steps whose dependencies have a ranking.
use chess_blunder_trainer.Common.{
  ℕ, zero, suc, ◌≤◌, ◌<◌, String, ◌≡◌, refl, Bool, true, false, Option, some, List, [], ◌∷◌, ◌++◌,
  arith, contains, add_key, not, is_some, string_eq, ◌&&◌, ◌||◌, All, Unique, Unique-snoc,
  contains-append, contains-add_key, Bool-cases, Option-cases, inl, inr, ◌⊎◌, eq_refl, All-map, ap,
}
use chess_blunder_trainer.Common.Dict
use chess_blunder_trainer.Common.Dict.{Dict}
use chess_blunder_trainer.Pipeline.Steps.{AnalysisStep, IsIndexed}
use chess_blunder_trainer.Pipeline.Order.{Sorting, start, visit_each, visit_step, visit}

module _ {G D W : Type 0} where
  abbrev pub ids : List (AnalysisStep G D W) → List String
  ids [] = []
  ids (s ∷ ss) = s.step_id ∷ ids ss

  ids-append : (xs ys : List (AnalysisStep G D W)) → ids (xs ++ ys) ≡ ids xs ++ ids ys
  ids-append [] ys = refl
  ids-append (x ∷ xs) ys = ap (λ l. x.step_id ∷ l) (ids-append xs ys)

-- Where `d` is wanted, it is among `seen`.
abbrev pub Placed : (String → Bool) → List String → String → Type 0
Placed wanted seen d = wanted d ≡ true → contains seen d ≡ true

module _ {G D W : Type 0} (wanted : String → Bool) where
  -- Each step stands behind those of its dependencies that are wanted; `seen` stands before all.
  abbrev pub DepsFirst : List String → List (AnalysisStep G D W) → Type 0
  DepsFirst seen [] = Unit
  DepsFirst seen (s ∷ ss) = All (Placed wanted seen) s.depends_on × DepsFirst (s.step_id ∷ seen) ss

  DepsFirst-snoc :
      (seen : List String) (ss : List (AnalysisStep G D W)) (s : AnalysisStep G D W)
      → DepsFirst seen ss
      → All (λ d. wanted d ≡ true → (contains seen d || contains (ids ss) d) ≡ true) s.depends_on
      → DepsFirst seen (ss ++ s ∷ [])
  unfolding contains
  DepsFirst-snoc seen [] s h all = (All-map (λ d p r. ground (arith, p r)) s.depends_on all, tt)
  DepsFirst-snoc seen (x ∷ ss) s h all = (
    h.0,
    DepsFirst-snoc (x.step_id ∷ seen) ss s h.1
        (All-map (λ d p r. ground (arith, p r)) s.depends_on all),
  )

pub DepsFirst-mono :
    {G D W : Type 0} (fewer more : String → Bool)
    → ((d : String) → fewer d ≡ true → more d ≡ true)
    → (seen : List String) (ss : List (AnalysisStep G D W)) → DepsFirst more seen ss
    → DepsFirst fewer seen ss
DepsFirst-mono fewer more f seen [] h = tt
DepsFirst-mono fewer more f seen (s ∷ ss) h = (
  All-map (λ d p r. p (f d r)) s.depends_on h.0,
  DepsFirst-mono fewer more f (s.step_id ∷ seen) ss h.1,
)

module _ {G D W : Type 0} (table : Dict String (AnalysisStep G D W)) where
  -- The dependencies of every known step have a smaller rank.
  abbrev pub Ranked : (String → ℕ) → Type 0
  Ranked rank =
      (id : String) (s : AnalysisStep G D W)
      → Dict.get table id ≡ some s
      → All (λ d. rank d < rank id) s.depends_on

  -- asked for, and known to the table
  abbrev pub required : List String → String → Bool
  required step_ids id = contains step_ids id && is_some (Dict.get table id)

module _ {G D W : Type 0} (table : Dict String (AnalysisStep G D W)) (step_ids : List String) where
  abbrev pub asked_for : String → Bool
  asked_for = required table step_ids

  pub record IsSorting (st : Sorting (AnalysisStep G D W)) : Type 0 where
    pub same : (x : String) → contains st.visited x ≡ contains (ids st.result) x
    pub unique : Unique (ids st.result)
    pub first : DepsFirst asked_for [] st.result
    pub asked : (x : String) → contains st.visited x ≡ true → asked_for x ≡ true

  pub record Reaches (bound : ℕ) (rank : String → ℕ) (st st' : Sorting (AnalysisStep G D W))
      : Type 0 where
    pub sorting : IsSorting st'
    pub grows : (x : String) → contains st.visited x ≡ true → contains st'.visited x ≡ true
    pub below :
        (x : String)
        → contains st'.visited x ≡ true
        → (contains st.visited x ≡ true) ⊎ (rank x < bound)

  module _ (indexed : IsIndexed table) (rank : String → ℕ) where
    -- `visit_step` appends a step whose dependencies are in place
    IsSorting-snoc :
        (id : String) (step : AnalysisStep G D W) (st : Sorting (AnalysisStep G D W))
        → Dict.get table id ≡ some step
        → contains step_ids id ≡ true
        → contains st.visited id ≡ false
        → All (Placed asked_for st.visited) step.depends_on
        → IsSorting st
        → IsSorting (record { visited = add_key id st.visited; result = st.result ++ step ∷ [] })
    unfolding contains
    IsSorting-snoc id step st at_id asked fresh deps h =
        let named = indexed id step at_id in
        record {
          same = λ x. ground (
            arith,
            contains-add_key id x st.visited,
            ap (λ l. contains l x) (ids-append st.result (step ∷ [])),
            contains-append (ids st.result) (step.step_id ∷ []) x,
            h.same x,
            named,
          );
          unique = rw (ids-append st.result (step ∷ [])) (
              Unique-snoc (ids st.result) step.step_id h.unique (ground (arith, h.same id, named)));
          first =
              DepsFirst-snoc asked_for [] st.result step h.first
                (All-map (λ d p r. ground (arith, p r, h.same d)) step.depends_on deps);
          asked = λ x p.
              ground (arith, contains-add_key id x st.visited, h.asked x, string_eq.beq_iff id x);
        }

    -- what a call of `visit` promises about one id
    abbrev pub Visits :
        (String → Sorting (AnalysisStep G D W) → Option (Sorting (AnalysisStep G D W)))
        → ℕ
        → String
        → Sorting (AnalysisStep G D W)
        → Type 0
    Visits v bound id st =
        (st' : Sorting (AnalysisStep G D W)) × (v id st ≡ some st')
        × Reaches bound rank st st'
        × Placed asked_for st'.visited id

    Reaches-trans :
        {bound : ℕ} (a b c : Sorting (AnalysisStep G D W))
        → Reaches bound rank a b
        → Reaches bound rank b c
        → Reaches bound rank a c
    Reaches-trans a b c h k = record {
      sorting = k.sorting;
      grows = λ x p. k.grows x (h.grows x p);
      below = λ x p. elim (k.below x p) [ inl q ↦ h.below x q | inr q ↦ inr q ];
    }

    pub Reaches-weaken :
        {small big : ℕ} (a b : Sorting (AnalysisStep G D W))
        → small ≤ big
        → Reaches small rank a b
        → Reaches big rank a b
    Reaches-weaken a b le h = record {
      sorting = h.sorting;
      grows = h.grows;
      below = λ x p. elim (h.below x p) [ inl q ↦ inl q | inr q ↦ inr (omega arith) ];
    }

    Reaches-here :
        {bound : ℕ} (a : Sorting (AnalysisStep G D W)) → IsSorting a → Reaches bound rank a a
    Reaches-here a h = record { sorting = h; grows = λ x p. p; below = λ x p. inl p }

    pub visit_each-Visits :
        (bound : ℕ)
        (v : String → Sorting (AnalysisStep G D W) → Option (Sorting (AnalysisStep G D W)))
        → ((d : String) (st : Sorting (AnalysisStep G D W))
            → rank d < bound
            → IsSorting st
            → Visits v bound d st)
        → (ds : List String) (st : Sorting (AnalysisStep G D W)) → All (λ d. rank d < bound) ds
        → IsSorting st
        → (st' : Sorting (AnalysisStep G D W)) × (visit_each v ds st ≡ some st')
          × Reaches bound rank st st'
          × All (Placed asked_for st'.visited) ds
    unfolding visit_each
    visit_each-Visits bound v step [] st below h = (st, refl, Reaches-here st h, tt)
    visit_each-Visits bound v step (d ∷ ds) st below h =
        let (st1, e1, r1, placed) = step d st below.0 h in
        let (st2, e2, r2, rest) = visit_each-Visits bound v step ds st1 below.1 r1.sorting in
        (
          st2,
          rw (e1, visit_each) e2,
          Reaches-trans st st1 st2 r1 r2,
          (λ r. r2.grows d (placed r), rest),
        )

    module _ (ranked : Ranked table rank) where
      visit_step-Visits :
          (v : String → Sorting (AnalysisStep G D W) → Option (Sorting (AnalysisStep G D W)))
          (id : String) (step : AnalysisStep G D W) (st : Sorting (AnalysisStep G D W))
          → ((d : String) (st : Sorting (AnalysisStep G D W))
              → rank d < rank id
              → IsSorting st
              → Visits v (rank id) d st)
          → Dict.get table id ≡ some step
          → contains step_ids id ≡ true
          → contains st.visited id ≡ false
          → IsSorting st
          → (st' : Sorting (AnalysisStep G D W)) × (visit_step table v id step st ≡ some st')
            × Reaches (suc (rank id)) rank st st'
            × (contains st'.visited id ≡ true)
      unfolding visit_step
      visit_step-Visits v id step st down at_id asked fresh h =
          let (st1, e1, r1, placed) =
            visit_each-Visits (rank id) v down step.depends_on st (ranked id step at_id) h in
          let still_fresh : contains st1.visited id ≡ false = ground (arith, r1.below id) in
          (
            record { visited = add_key id st1.visited; result = st1.result ++ step ∷ [] },
            rw (e1, visit_step),
            record {
              sorting = IsSorting-snoc id step st1 at_id asked still_fresh placed r1.sorting;
              grows = λ x p. ground (arith, contains-add_key id x st1.visited, r1.grows x p);
              below = λ x p. ground (
                arith,
                contains-add_key id x st1.visited,
                r1.below x,
                string_eq.beq_iff id x,
                ap {B = ℕ} rank {x = id} {y = x},
              );
            },
            ground (arith, contains-add_key id id st1.visited, eq_refl id),
          )

      pub visit-Visits :
          (fuel : ℕ) (id : String) (st : Sorting (AnalysisStep G D W))
          → rank id < fuel
          → IsSorting st
          → Visits (visit table step_ids fuel) (suc (rank id)) id st
      unfolding visit
      visit-Visits zero id st h sorted = absurd (omega arith)
      visit-Visits (suc fuel) id st h sorted =
          let test : Bool = contains st.visited id || not (contains step_ids id) in
          elim (Bool-cases test) [
            | inl skip ↦ (st, rw (skip, visit), Reaches-here st sorted, λ r. ground arith)
            | inr go ↦ elim (Option-cases (Dict.get table id)) [
              | inl unknown ↦
                  (st, rw (go, visit) (rw unknown), Reaches-here st sorted, λ r. ground arith)
              | inr (step, at_id) ↦
                  let (st', e, r, placed) =
                    visit_step-Visits (visit table step_ids fuel) id step st
                      (λ d sd lt sorted'.
                        let (sd', ed, rd, pd) = visit-Visits fuel d sd (omega arith) sorted' in
                        (sd', ed, Reaches-weaken sd sd' (omega arith) rd, pd))
                      at_id (ground arith) (ground arith) sorted in
                  (st', rw (go, visit) (rw at_id e), r, λ _. placed)
            ]
          ]

      pub IsSorting-start : IsSorting start
      unfolding contains
      IsSorting-start = record { same = λ x. refl; unique = tt; first = tt; asked = λ x p. cc }
