-- ===== src/Auth/Service/Revoked.antt =====
-- Sessions of blunder_tutor/auth/core/service.py after they are revoked.
use chess_blunder_trainer.Common.{
  ℕ, String, ◌≡◌, refl, Bool, true, false, Option, none, some, List, [], ◌∷◌, ◌==◌, not, string_eq,
  arith, All, Bool-cases, inl, inr, Option-cases,
}
use chess_blunder_trainer.Auth.Types.{User, UserContext, Session, is_ok}
use chess_blunder_trainer.Auth.Tables.{AuthDb, first, has_token, has_id, row_to_user}
use chess_blunder_trainer.Auth.Tables.Rows.{All-keep, first-All, first-holds}
use chess_blunder_trainer.Auth.Tables.UserRepository
use chess_blunder_trainer.Auth.Tables.IdentityRepository
use chess_blunder_trainer.Auth.Tables.SessionRepository
use chess_blunder_trainer.Auth.Service.{
  AuthService, resolve_session, resolve_live, load_live_session, maybe_bump_last_seen, context_of,
  revoke_session, revoke_all_sessions, delete_account, change_password, is_dead,
}
use chess_blunder_trainer.Auth.Service.Runs.{
  Op, do_register, do_signup, do_create_session, do_resolve, do_revoke, do_revoke_all, do_delete,
  do_change_password, step, run, sessions-register, sessions-signup,
}
use chess_blunder_trainer.Auth.Service.Sessions.{
  LoggedOut, LoggedOut-resolve_session, LoggedOut-create_session, LoggedOut-delete,
  LoggedOut-delete_all_for_user, logs_out,
}

-- the operation opens a session for the user
unfoldable pub opens_session : String → Op → Bool
opens_session uid (do_create_session token user_id ua ip now) = user_id == uid
opens_session uid _ = false

sessions-update_credential :
    (uid id hashed : String) (db : AuthDb)
    → LoggedOut uid db
    → LoggedOut uid (IdentityRepository.update_credential id hashed db)
unfolding IdentityRepository.update_credential
sessions-update_credential uid id hashed db h = h

LoggedOut-change_password :
    (service : AuthService) (uid user_id identity_id pw : String) (db : AuthDb)
    → LoggedOut uid db
    → LoggedOut uid (change_password service user_id identity_id pw db).1
unfolding change_password
LoggedOut-change_password service uid user_id identity_id pw db h =
    elim (Option-cases (service.hasher.hash pw)) [
      | inl p ↦ rw (p, change_password) h
      | inr (c, p) ↦
          rw (p, change_password)
            (LoggedOut-delete_all_for_user uid user_id
              (IdentityRepository.update_credential identity_id c db)
              (sessions-update_credential uid identity_id c db h))
    ]

LoggedOut-delete_account :
    (service : AuthService) (uid user_id : String) (db : AuthDb)
    → LoggedOut uid db
    → LoggedOut uid (delete_account service user_id db).1
unfolding delete_account UserRepository.delete
LoggedOut-delete_account service uid user_id db h =
    All-keep (λ s. (s.user_id == uid) ≡ false) (λ s. not (s.user_id == user_id)) db.sessions h

step-LoggedOut :
    (service : AuthService) (uid : String) (o : Op) (db : AuthDb)
    → opens_session uid o ≡ false
    → LoggedOut uid db
    → LoggedOut uid (step service o db)
unfolding step opens_session revoke_session revoke_all_sessions
step-LoggedOut service uid (do_register r) db k h = rw (sessions-register service r db) h
step-LoggedOut service uid (do_signup r) db k h = rw (sessions-signup service r db) h
step-LoggedOut service uid (do_create_session token user_id ua ip now) db k h =
    LoggedOut-create_session service uid token user_id ua ip now db k h
step-LoggedOut service uid (do_resolve now token) db k h =
    LoggedOut-resolve_session service uid token now db h
step-LoggedOut service uid (do_revoke token) db k h = LoggedOut-delete uid token db h
step-LoggedOut service uid (do_revoke_all user_id) db k h =
    LoggedOut-delete_all_for_user uid user_id db h
step-LoggedOut service uid (do_delete user_id) db k h =
    LoggedOut-delete_account service uid user_id db h
step-LoggedOut service uid (do_change_password user_id identity_id pw) db k h =
    LoggedOut-change_password service uid user_id identity_id pw db h

run-LoggedOut :
    (service : AuthService) (uid : String) (os : List Op) (db : AuthDb)
    → All (λ o. opens_session uid o ≡ false) os
    → LoggedOut uid db
    → LoggedOut uid (run service os db)
unfolding run
run-LoggedOut service uid [] db k h = h
run-LoggedOut service uid (o ∷ os) db k h =
    run-LoggedOut service uid os (step service o db) k.1 (step-LoggedOut service uid o db k.0 h)

get_by_id-id :
    (id : String) (db : AuthDb) (u : User)
    → UserRepository.get_by_id id db ≡ some u
    → (u.id == id) ≡ true
unfolding UserRepository.get_by_id row_to_user
get_by_id-id id db u e = elim (Option-cases (first (has_id id) db.users)) [
  | inl p ↦ ground (arith, e, p)
  | inr (v, p) ↦
      let found = first-holds (has_id id) db.users v p in
      unfold has_id in ground (arith, e, p, found)
]

context_of-some :
    (token : String) (o : Option User) (db : AuthDb) (ctx : UserContext)
    → (context_of token o db).0 ≡ some ctx
    → (u : User) × (o ≡ some u) × (ctx.user_id ≡ u.id)
unfolding context_of
context_of-some token none db ctx e = cc
context_of-some token (some u) db ctx e = (u, refl, ground (arith, e))

resolve_live-some :
    (service : AuthService) (now : ℕ) (token : String) (o : Option Session) (db : AuthDb)
    (ctx : UserContext)
    → (resolve_live service now token (o, db)).0 ≡ some ctx
    → (s : Session) × (o ≡ some s) × ((ctx.user_id == s.user_id) ≡ true)
unfolding resolve_live
resolve_live-some service now token none db ctx e = cc
resolve_live-some service now token (some s) db ctx e =
    let bumped = maybe_bump_last_seen service now token s db in
    let (u, p, q) =
      context_of-some token (UserRepository.get_by_id s.user_id bumped) bumped ctx e in
    (s, refl, rw q (get_by_id-id s.user_id bumped u p))

load_live_session-some :
    (service : AuthService) (now : ℕ) (token : String) (db : AuthDb) (s : Session)
    → (load_live_session service now token db).0 ≡ some s
    → (SessionRepository.get token db ≡ some s) × (is_dead service now s ≡ false)
unfolding load_live_session
load_live_session-some service now token db s e =
    elim (Option-cases (SessionRepository.get token db)) [
      | inl p ↦ ground (arith, e, p)
      | inr (x, p) ↦ elim (Bool-cases (is_dead service now x)) [
        | inl dead ↦ ground (arith, e, p, dead)
        | inr alive ↦ ground (arith, e, p, alive)
      ]
    ]

-- Where a token is resolved, its session is in the table and alive, and is the user's.
pub resolve_session-some :
    (service : AuthService) (now : ℕ) (token : String) (db : AuthDb) (ctx : UserContext)
    → (resolve_session service now token db).0 ≡ some ctx
    → (s : Session) × (SessionRepository.get token db ≡ some s)
      × (is_dead service now s ≡ false)
      × ((ctx.user_id == s.user_id) ≡ true)
unfolding resolve_session
resolve_session-some service now token db ctx e = elim (Bool-cases (token == "")) [
  | inl empty ↦ ground (arith, e, empty)
  | inr full ↦
      let (s, p, q) =
        resolve_live-some service now token (load_live_session service now token db).0
          (load_live_session service now token db).1 ctx (ground (arith, e, full)) in
      let (found, alive) = load_live_session-some service now token db s p in (s, found, alive, q)
]

LoggedOut-resolve :
    (service : AuthService) (uid : String) (now : ℕ) (token : String) (db : AuthDb)
    (ctx : UserContext)
    → LoggedOut uid db
    → (resolve_session service now token db).0 ≡ some ctx
    → (ctx.user_id == uid) ≡ false
unfolding SessionRepository.get
LoggedOut-resolve service uid now token db ctx h e =
    let (s, found, alive, q) = resolve_session-some service now token db ctx e in
    let (other, t) =
      first-All (λ x. (x.user_id == uid) ≡ false) (has_token token) db.sessions s h found in
    ground (arith, other, q, string_eq.beq_iff ctx.user_id s.user_id)

change_password-LoggedOut :
    (service : AuthService) (uid identity_id pw : String) (db : AuthDb)
    → is_ok (change_password service uid identity_id pw db).0 ≡ true
    → LoggedOut uid (change_password service uid identity_id pw db).1
unfolding change_password
change_password-LoggedOut service uid identity_id pw db k =
    elim (Option-cases (service.hasher.hash pw)) [
      | inl p ↦ unfold change_password in ground (arith, k, p)
      | inr (c, p) ↦
          rw (p, change_password)
            (logs_out uid (IdentityRepository.update_credential identity_id c db))
    ]

-- After a change of the user's password that succeeds, and after any operations that open no session
-- for the user, no token resolves to the user.
pub password_change_logs_out :
    (service : AuthService) (uid identity_id new_password : String) (db : AuthDb) (os : List Op)
    (now : ℕ) (token : String) (ctx : UserContext)
    → is_ok (change_password service uid identity_id new_password db).0 ≡ true
    → All (λ o. opens_session uid o ≡ false) os
    → (resolve_session service now token
        (run service os (change_password service uid identity_id new_password db).1)).0
      ≡ some ctx
    → (ctx.user_id == uid) ≡ false
password_change_logs_out service uid identity_id new_password db os now token ctx k quiet e =
    let changed = (change_password service uid identity_id new_password db).1 in
    LoggedOut-resolve service uid now token (run service os changed) ctx
      (run-LoggedOut service uid os changed quiet
        (change_password-LoggedOut service uid identity_id new_password db k))
      e
