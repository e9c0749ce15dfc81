-- ===== src/Background/Scheduler/Fanout.antt =====
-- A tick of the scheduler treats its users one by one.
use chess_blunder_trainer.Common.{
  String, ◌≡◌, refl, ap, ◌∙◌, false, Option, none, some, List, [], ◌∷◌, ◌++◌, ◌==◌, string_eq,
  contains, Unique, arith, if◌then◌else◌,
}
use chess_blunder_trainer.Common.Dict
use chess_blunder_trainer.Common.Dict.{Dict, get-put}
use chess_blunder_trainer.Events.Types.{Event}
use chess_blunder_trainer.Background.Scheduler.{
  UserDb, TickEnv, dispatch_one_user, empty_db, db_of, fanout, fanout_tick,
}

module _ (env : TickEnv) where
  -- what each user would get alone, with the databases as they were before the tick
  abbrev pub requests_alone : List String → Dict String UserDb → List Event
  requests_alone [] dbs = []
  requests_alone (user ∷ users) dbs =
      (dispatch_one_user env user (db_of env dbs user)).1 ++ requests_alone users dbs

  db_of-put :
      (dbs : Dict String UserDb) (user other : String) (db : UserDb)
      → (user == other) ≡ false
      → db_of env (Dict.put dbs user db) other ≡ db_of env dbs other
  unfolding db_of
  db_of-put dbs user other db differs =
      let same : Dict.get (Dict.put dbs user db) other ≡ Dict.get dbs other =
        get-put dbs user other db ∙ ap (λ b. if b then some db else Dict.get dbs other) differs in
      ap (λ (o : Option UserDb). elim o [ none ↦ empty_db env | some d ↦ d ]) same

  requests_alone-put :
      (users : List String) (dbs : Dict String UserDb) (user : String) (db : UserDb)
      → contains users user ≡ false
      → requests_alone users (Dict.put dbs user db) ≡ requests_alone users dbs
  unfolding contains
  requests_alone-put [] dbs user db absent = refl
  requests_alone-put (u ∷ users) dbs user db absent =
      rw
        (
          db_of-put dbs user u db
              (ground (arith, absent, string_eq.beq_iff u user, string_eq.beq_iff user u)),
          requests_alone-put users dbs user db (ground (arith, absent)),
        )
        refl

  -- A tick publishes, for the users in their order, exactly what each of them would get alone: no user's settings,
  -- failures or deleted directory change what another user gets.
  pub fanout_is_per_user :
      (users : List String) (dbs : Dict String UserDb)
      → Unique users
      → (fanout_tick env (some users) dbs).1 ≡ requests_alone users dbs
  unfolding fanout_tick fanout
  fanout_is_per_user [] dbs unique = refl
  fanout_is_per_user (user ∷ users) dbs unique =
      let r = dispatch_one_user env user (db_of env dbs user) in
      ap (λ rest. r.1 ++ rest)
        (fanout_is_per_user users (Dict.put dbs user r.0) unique.1
          ∙ requests_alone-put users dbs user r.0 unique.0)
