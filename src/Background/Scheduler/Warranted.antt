-- ===== src/Background/Scheduler/Warranted.antt =====
-- Which events a tick of the scheduler publishes.
use chess_blunder_trainer.Common.{
  ℕ, String, ◌≡◌, ◌⊎◌, inl, inr, refl, ap, sym, ◌∙◌, is_some, subst, true, Option, none, some, List,
  [], ◌∷◌, ◌++◌, not, string_eq, nat_eq, contains, Unique, All, All-append, All-map, arith,
  if◌then◌else◌, if_both, Bool-cases, Option-cases, eq_refl,
}
use chess_blunder_trainer.Common.Int.{ℤ, pos}
use chess_blunder_trainer.Common.Dict
use chess_blunder_trainer.Common.Dict.{Dict, get-put}
use chess_blunder_trainer.Common.Search.{some-injective, none-some}
use chess_blunder_trainer.Events.Types.{
  Event, job_status_changed, job_execution_requested, create_status_changed,
  create_execution_request,
}
use chess_blunder_trainer.Jobs.Repository.{Job}
use chess_blunder_trainer.Jobs.Repository
use chess_blunder_trainer.Background.Scheduler.{
  Candidate, UserDb, TickEnv, sync_job, create_sync_job, Pass, passed_with, setting,
  is_feature_enabled, is_text, hours_or, is_sync_due, is_game_sync_due, sync_events, sync_each,
  sync_at, maybe_dispatch_sync_for_user, stats_request, stats_each, stats_at,
  maybe_dispatch_stats_sync_for_user, dispatch_one_user, db_of, fanout_tick,
}
use chess_blunder_trainer.Background.Scheduler.Fanout.{requests_alone, fanout_is_per_user}

abbrev pub profile_ids : List Candidate → List ℕ
profile_ids [] = []
profile_ids (c ∷ cs) = c.profile_id ∷ profile_ids cs

module _ (env : TickEnv) where
  -- the request to run a job of the type for the user and the profile
  abbrev pub IsRequest : String → String → String → ℕ → Event → Type 0
  IsRequest user job_id job_type id e =
      (e.type ≡ job_execution_requested)
      × (e.payload.job_id ≡ some job_id)
      × (e.payload.job_type ≡ some job_type)
      × (e.payload.user_id ≡ some user)
      × (e.payload.profile_id ≡ some id)

  -- the pending status of the job
  abbrev pub IsPending : String → String → Event → Type 0
  IsPending job_id job_type e =
      (e.type ≡ job_status_changed)
      × (e.payload.job_id ≡ some job_id)
      × (e.payload.job_type ≡ some job_type)
      × (e.payload.status ≡ some "pending")
      × (e.payload.error_message ≡ none)

  -- for one of the profiles: the pending status of a sync job whose id was not taken, the request to run that job, or
  -- the request for a statistics sync
  abbrev pub IsWarranted : String → List ℕ → Dict String Job → Event → Type 0
  IsWarranted user profiles old e =
      (id : ℕ) × (contains profiles id ≡ true)
      × (((Dict.get old (env.new_job_id user id) ≡ none)
            × (IsPending (env.new_job_id user id) "sync" e
                ⊎ IsRequest user (env.new_job_id user id) "sync" id e))
          ⊎ IsRequest user (env.stats_sync_id user id) "stats_sync" id e)

  create_execution_request-IsRequest :
      (user job_id job_type : String) (id : ℕ)
      → IsRequest user job_id job_type id (create_execution_request job_id job_type user (some id))
  unfolding create_execution_request
  create_execution_request-IsRequest user job_id job_type id = (refl, refl, refl, refl, refl)

  -- the ids that are free in the first rows are free in the second ones
  abbrev Frees : Dict String Job → Dict String Job → Type 0
  Frees jobs old = (id : String) → Dict.get jobs id ≡ none → Dict.get old id ≡ none

  create_sync_job-free :
      (user : String) (c : Candidate) (jobs jobs' : Dict String Job)
      → create_sync_job env user c jobs ≡ some jobs'
      → (Dict.get jobs (env.new_job_id user c.profile_id) ≡ none) × Frees jobs' jobs
  unfolding Repository.create_job
  create_sync_job-free user c jobs jobs' added =
      let job_id = env.new_job_id user c.profile_id in
      let job = sync_job (env.created_at user c.profile_id) c in
      elim (Option-cases (Dict.get jobs job_id)) [
        | inl free ↦ (
          free,
          λ id unused.
              let stored : Dict.put jobs job_id job ≡ jobs' = some-injective (
                ap (λ (o : Option Job). if is_some o then none else some (Dict.put jobs job_id job))
                  (sym free)
                ∙ added) in
              let there = ap (λ d. Dict.get d id) stored in
              ground (arith, get-put jobs job_id id job, there, unused),
        )
        | inr (row, taken) ↦ absurd (
            none-some (
              ap (λ (o : Option Job). if is_some o then none else some (Dict.put jobs job_id job))
                (sym taken)
              ∙ added))
      ]

  sync_events-IsWarranted :
      (user : String) (profiles : List ℕ) (old : Dict String Job) (c : Candidate)
      → contains profiles c.profile_id ≡ true
      → Dict.get old (env.new_job_id user c.profile_id) ≡ none
      → All (IsWarranted user profiles old) (sync_events env user c)
  unfolding create_status_changed
  sync_events-IsWarranted user profiles old c known free =
      let job_id = env.new_job_id user c.profile_id in
      (
        (c.profile_id, known, inl (free, inl (refl, refl, refl, refl, refl))),
        (
          (
            c.profile_id,
            known,
            inl (free, inr (create_execution_request-IsRequest user job_id "sync" c.profile_id)),
          ),
          tt,
        ),
      )

  abbrev Known : List ℕ → List Candidate → Type 0
  Known profiles cs = All (λ (c : Candidate). contains profiles c.profile_id ≡ true) cs

  sync_each-IsWarranted :
      (user : String) (profiles : List ℕ) (old : Dict String Job) (hours : ℤ) (cs : List Candidate)
      (db : UserDb) (events : List Event)
      → Known profiles cs
      → Frees db.jobs old
      → All (IsWarranted user profiles old) events
      → All (IsWarranted user profiles old) (sync_each env user hours cs db events).events
  unfolding sync_each
  sync_each-IsWarranted user profiles old hours [] db events known frees h = h
  sync_each-IsWarranted user profiles old hours (c ∷ cs) db events known frees h =
      elim (Bool-cases (is_game_sync_due env db c hours)) [
        | inl due ↦ elim (Option-cases (create_sync_job env user c db.jobs)) [
          | inl taken ↦ rw (due, taken) h
          | inr (jobs, added) ↦
              let (free, grown) = create_sync_job-free user c db.jobs jobs added in
              rw (due, added)
                (sync_each-IsWarranted user profiles old hours cs (record db { jobs = jobs })
                  (events ++ sync_events env user c) known.1
                  (λ id unused. frees id (grown id unused))
                  (All-append (IsWarranted user profiles old) events (sync_events env user c) h (
                    sync_events-IsWarranted user profiles old c known.0
                      (frees (env.new_job_id user c.profile_id) free))))
        ]
        | inr fresh ↦
            rw fresh (sync_each-IsWarranted user profiles old hours cs db events known.1 frees h)
      ]

  stats_each-IsWarranted :
      (user : String) (profiles : List ℕ) (old : Dict String Job) (hours : ℤ) (cs : List Candidate)
      → Known profiles cs
      → All (IsWarranted user profiles old) (stats_each env user hours cs)
  unfolding stats_each
  stats_each-IsWarranted user profiles old hours [] known = tt
  stats_each-IsWarranted user profiles old hours (c ∷ cs) known =
      let rest = stats_each-IsWarranted user profiles old hours cs known.1 in
      if_both (All (IsWarranted user profiles old))
        (not (is_sync_due env.now c.last_stats_sync_at hours)) (stats_each env user hours cs)
        (stats_request env user c ∷ stats_each env user hours cs) rest
        (
          (
            c.profile_id,
            known.0,
            inr (
                create_execution_request-IsRequest user (env.stats_sync_id user c.profile_id)
                  "stats_sync" c.profile_id),
          ),
          rest,
        )

  Known-own : (cs : List Candidate) → Known (profile_ids cs) cs
  unfolding contains
  Known-own [] = tt
  Known-own (c ∷ cs) = (
    ground (arith, eq_refl c.profile_id),
    All-map (λ (d : Candidate) known. ground (arith, known)) cs (Known-own cs),
  )

  sync_each-candidates :
      (user : String) (hours : ℤ) (cs : List Candidate) (db : UserDb) (events : List Event)
      → (sync_each env user hours cs db events).db.candidates ≡ db.candidates
  unfolding sync_each
  sync_each-candidates user hours [] db events = refl
  sync_each-candidates user hours (c ∷ cs) db events =
      elim (Bool-cases (is_game_sync_due env db c hours)) [
        | inl due ↦ elim (Option-cases (create_sync_job env user c db.jobs)) [
          | inl taken ↦ rw (due, taken) refl
          | inr (jobs, added) ↦
              rw (due, added)
                (sync_each-candidates user hours cs (record db { jobs = jobs })
                  (events ++ sync_events env user c))
        ]
        | inr fresh ↦ rw fresh (sync_each-candidates user hours cs db events)
      ]

  -- a pass over a user's database publishes warranted events, and keeps the candidates
  abbrev IsSound : String → UserDb → Pass → Type 0
  IsSound user db r =
      All (IsWarranted user (profile_ids db.candidates) db.jobs) r.events
      × (r.db.candidates ≡ db.candidates)

  sync_at-IsSound :
      (user : String) (hours : Option ℤ) (db : UserDb) → IsSound user db (sync_at env user hours db)
  sync_at-IsSound user none db = (tt, refl)
  sync_at-IsSound user (some hours) db = (
    sync_each-IsWarranted user (profile_ids db.candidates) db.jobs hours db.candidates db []
        (Known-own db.candidates) (λ id unused. unused) tt,
    sync_each-candidates user hours db.candidates db [],
  )

  maybe_dispatch_sync-IsSound :
      (user : String) (db : UserDb) → IsSound user db (maybe_dispatch_sync_for_user env user db)
  unfolding maybe_dispatch_sync_for_user
  maybe_dispatch_sync-IsSound user db =
      let hours = hours_or env.int_of (pos 24) (setting db.settings "sync_interval_hours") in
      if_both (IsSound user db) (not (is_feature_enabled db.settings "feature_auto.sync"))
        (passed_with db [])
        (if not (is_text "true" (setting db.settings "auto_sync_enabled"))
          then passed_with db []
          else sync_at env user hours db)
        (tt, refl)
        (if_both (IsSound user db) (not (is_text "true" (setting db.settings "auto_sync_enabled")))
          (passed_with db []) (sync_at env user hours db) (tt, refl)
          (sync_at-IsSound user hours db))

  stats_at-IsWarranted :
      (user : String) (old : Dict String Job) (hours : Option ℤ) (db : UserDb)
      → All (IsWarranted user (profile_ids db.candidates) old) (stats_at env user hours db)
  stats_at-IsWarranted user old none db = tt
  stats_at-IsWarranted user old (some hours) db =
      stats_each-IsWarranted user (profile_ids db.candidates) old hours db.candidates
        (Known-own db.candidates)

  -- the events of one user, when the directory is there
  abbrev OfLiveUser : String → UserDb → List Event → Type 0
  OfLiveUser user db events =
      All
        (λ e.
          (env.has_directory user ≡ true) × IsWarranted user (profile_ids db.candidates) db.jobs e)
        events

  dispatch_one_user-OfLiveUser :
      (user : String) (db : UserDb) → OfLiveUser user db (dispatch_one_user env user db).1
  unfolding dispatch_one_user maybe_dispatch_stats_sync_for_user
  dispatch_one_user-OfLiveUser user db =
      let games = maybe_dispatch_sync_for_user env user db in
      let (sync_sound, kept) = maybe_dispatch_sync-IsSound user db in
      let W = IsWarranted user (profile_ids db.candidates) db.jobs in
      let hours =
        hours_or env.int_of (pos 1) (setting games.db.settings "stats_sync_interval_hours") in
      let stats = stats_at env user hours games.db in
      let stats_sound =
        subst (λ cs. All (IsWarranted user (profile_ids cs) db.jobs) stats) kept
          (stats_at-IsWarranted user db.jobs hours games.db) in
      elim (Bool-cases (env.resolves user)) [
        | inr unresolved ↦ rw unresolved tt
        | inl resolved ↦ elim (Bool-cases (env.has_directory user)) [
          | inr deleted ↦ rw (resolved, deleted) tt
          | inl live ↦
              let all : All W (if games.went_on then games.events ++ stats else games.events) =
                if_both (All W) games.went_on (games.events ++ stats) games.events
                  (All-append W games.events stats sync_sound stats_sound) sync_sound in
              rw (resolved, live) (All-map (λ e w. (refl, w)) _ all)
        ]
      ]

  -- an event of the tick belongs to a listed user whose data is still there
  abbrev pub IsOfUsers : List String → Dict String UserDb → Event → Type 0
  IsOfUsers users dbs e =
      (user : String) × (contains users user ≡ true)
      × (env.has_directory user ≡ true)
      × IsWarranted user (profile_ids (db_of env dbs user).candidates) (db_of env dbs user).jobs e

  requests_alone-IsOfUsers :
      (users : List String) (dbs : Dict String UserDb)
      → All (IsOfUsers users dbs) (requests_alone env users dbs)
  unfolding contains
  requests_alone-IsOfUsers [] dbs = tt
  requests_alone-IsOfUsers (user ∷ users) dbs =
      All-append (IsOfUsers (user ∷ users) dbs) (dispatch_one_user env user (db_of env dbs user)).1
        (requests_alone env users dbs)
        (All-map (λ e w. (user, ground (arith, eq_refl user), w.0, w.1)) _
          (dispatch_one_user-OfLiveUser user (db_of env dbs user)))
        (All-map (λ e w. (w.0, ground (arith, w.1), w.2, w.3)) _
          (requests_alone-IsOfUsers users dbs))

  -- Every event that a tick publishes is for a listed user whose data directory is still there and for one of the
  -- user's own profiles. It is the pending status of a sync job, with the new id that was drawn for the profile and
  -- that no job of the user had before, or the request to run that job, or the request for a statistics sync; and a
  -- request carries that user and profile.
  pub fanout_is_warranted :
      (users : List String) (dbs : Dict String UserDb)
      → Unique users
      → All (IsOfUsers users dbs) (fanout_tick env (some users) dbs).1
  fanout_is_warranted users dbs unique =
      rw (fanout_is_per_user env users dbs unique) (requests_alone-IsOfUsers users dbs)
