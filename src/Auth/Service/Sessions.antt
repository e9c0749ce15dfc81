-- ===== src/Auth/Service/Sessions.antt =====
-- The sessions of a user under the operations of blunder_tutor/auth/core/service.py.
use chess_blunder_trainer.Common.{
  ℕ, ◌+◌, String, ◌≡◌, refl, false, Option, none, some, [], ◌∷◌, ◌++◌, ◌==◌, not, if◌then◌else◌,
  string_eq, keep, arith, All, All-append, All-map, ◌-◌, ◌/◌, leb, ◌⊎◌, if_both, Bool-cases, inl,
  inr, Option-cases,
}
use chess_blunder_trainer.Auth.Types.{User, Session, ok, Result-cases}
use chess_blunder_trainer.Auth.Tables.{AuthDb, has_token}
use chess_blunder_trainer.Auth.Tables.Rows.{All-keep, All-kept, All-map_to}
use chess_blunder_trainer.Auth.Tables.UserRepository
use chess_blunder_trainer.Auth.Tables.SessionRepository
use chess_blunder_trainer.Auth.Service.{
  AuthService, create_session, resolve_session, resolve_live, load_live_session,
  maybe_bump_last_seen, context_of, is_dead,
}

-- no session in the table is the user's
abbrev pub LoggedOut : String → AuthDb → Type 0
LoggedOut uid db = All (λ s. (s.user_id == uid) ≡ false) db.sessions

pub LoggedOut-delete :
    (uid token : String) (db : AuthDb)
    → LoggedOut uid db
    → LoggedOut uid (SessionRepository.delete token db)
unfolding SessionRepository.delete
LoggedOut-delete uid token db h =
    All-keep (λ s. (s.user_id == uid) ≡ false) (λ s. not (has_token token s)) db.sessions h

LoggedOut-bump :
    (uid token : String) (now : ℕ) (db : AuthDb)
    → LoggedOut uid db
    → LoggedOut uid (SessionRepository.bump_last_seen now token db)
unfolding SessionRepository.bump_last_seen
LoggedOut-bump uid token now db h =
    All-map_to (λ s. (s.user_id == uid) ≡ false)
      (λ s. if has_token token s then record s { last_seen_at = now } else s) db.sessions
      (λ s p. ground (arith, p)) h

pub LoggedOut-delete_all_for_user :
    (uid user_id : String) (db : AuthDb)
    → LoggedOut uid db
    → LoggedOut uid (SessionRepository.delete_all_for_user user_id db)
unfolding SessionRepository.delete_all_for_user
LoggedOut-delete_all_for_user uid user_id db h =
    All-keep (λ s. (s.user_id == uid) ≡ false) (λ s. not (s.user_id == user_id)) db.sessions h

pub logs_out :
    (uid : String) (db : AuthDb) → LoggedOut uid (SessionRepository.delete_all_for_user uid db)
unfolding SessionRepository.delete_all_for_user
logs_out uid db =
    All-map (λ s p. ground (arith, p)) (keep (λ s. not (s.user_id == uid)) db.sessions)
      (All-kept (λ s. not (s.user_id == uid)) db.sessions)

sessions-insert :
    (s : Session) (db db' : AuthDb)
    → SessionRepository.insert s db ≡ ok db'
    → db'.sessions ≡ db.sessions ++ s ∷ []
unfolding SessionRepository.insert
sessions-insert s db db' e = ground (arith, e)

-- the table after `create_session` is the old one, or has the new session at its end
unfoldable new_session : AuthService → String → String → Option String → Option String → ℕ → Session
new_session service token user_id ua ip now = record {
  token = token;
  user_id = user_id;
  created_at = now;
  expires_at = now + service.session_max_age;
  last_seen_at = now;
  user_agent = ua;
  ip_address = ip;
}

create_session-cases :
    (service : AuthService) (token user_id : String) (ua ip : Option String) (now : ℕ) (db : AuthDb)
    → ((create_session service token user_id ua ip now db).1.sessions ≡ db.sessions)
      ⊎ ((create_session service token user_id ua ip now db).1.sessions
          ≡ db.sessions ++ new_session service token user_id ua ip now ∷ [])
unfolding create_session new_session
create_session-cases service token user_id ua ip now db =
    let s = new_session service token user_id ua ip now in
    elim (Result-cases (SessionRepository.insert s db)) [
      | inr (e, p) ↦ inl (rw (p, create_session) refl)
      | inl (d, p) ↦ elim (Option-cases (SessionRepository.get token d)) [
        | inl q ↦ inr (rw (p, create_session, q) (sessions-insert s db d p))
        | inr (x, q) ↦ inr (rw (p, create_session, q) (sessions-insert s db d p))
      ]
    ]

pub LoggedOut-create_session :
    (service : AuthService) (uid token user_id : String) (ua ip : Option String) (now : ℕ)
    (db : AuthDb)
    → (user_id == uid) ≡ false
    → LoggedOut uid db
    → LoggedOut uid (create_session service token user_id ua ip now db).1
unfolding new_session
LoggedOut-create_session service uid token user_id ua ip now db p h =
    elim (create_session-cases service token user_id ua ip now db) [
      | inl q ↦ rw q h
      | inr q ↦ rw q (
          All-append (λ s. (s.user_id == uid) ≡ false) db.sessions
            (new_session service token user_id ua ip now ∷ []) h (p, tt))
    ]

pub users-create_session :
    (service : AuthService) (token user_id : String) (ua ip : Option String) (now : ℕ) (db : AuthDb)
    → (create_session service token user_id ua ip now db).1.users ≡ db.users
unfolding create_session SessionRepository.insert
users-create_session service token user_id ua ip now db = ground arith

-- What the deletion of a session and the bump keep, the resolution of a token keeps.
module _ (P : AuthDb → Type 0)
    (del : (token : String) (db : AuthDb) → P db → P (SessionRepository.delete token db))
    (bump : (token : String) (now : ℕ) (db : AuthDb)
      → P db
      → P (SessionRepository.bump_last_seen now token db)) where
  maybe_bump_last_seen-keeps :
      (service : AuthService) (token : String) (now : ℕ) (s : Session) (db : AuthDb)
      → P db
      → P (maybe_bump_last_seen service now token s db)
  unfolding maybe_bump_last_seen
  maybe_bump_last_seen-keeps service token now s db h =
      if_both P (leb (service.session_idle / 10) (now - s.last_seen_at))
        (SessionRepository.bump_last_seen now token db) db (bump token now db h) h

  context_of-keeps :
      (token : String) (u : Option User) (db : AuthDb) → P db → P (context_of token u db).1
  unfolding context_of
  context_of-keeps token none db h = del token db h
  context_of-keeps token (some u) db h = h

  resolve_live-keeps :
      (service : AuthService) (token : String) (now : ℕ) (found : Option Session) (db : AuthDb)
      → P db
      → P (resolve_live service now token (found, db)).1
  unfolding resolve_live
  resolve_live-keeps service token now none db h = h
  resolve_live-keeps service token now (some s) db h =
      let bumped = maybe_bump_last_seen service now token s db in
      context_of-keeps token (UserRepository.get_by_id s.user_id bumped) bumped
        (maybe_bump_last_seen-keeps service token now s db h)

  load_live_session-keeps :
      (service : AuthService) (token : String) (now : ℕ) (db : AuthDb)
      → P db
      → P (load_live_session service now token db).1
  unfolding load_live_session
  load_live_session-keeps service token now db h =
      elim (Option-cases (SessionRepository.get token db)) [
        | inl p ↦ rw (p, load_live_session) h
        | inr (s, p) ↦
            rw (p, load_live_session)
              (elim (Bool-cases (is_dead service now s)) [
                | inl dead ↦ rw dead (del token db h)
                | inr live ↦ rw live h
              ])
      ]

  pub resolve_session-keeps :
      (service : AuthService) (token : String) (now : ℕ) (db : AuthDb)
      → P db
      → P (resolve_session service now token db).1
  unfolding resolve_session
  resolve_session-keeps service token now db h = elim (Bool-cases (token == "")) [
    | inl empty ↦ rw (empty, resolve_session) h
    | inr full ↦
        rw (full, resolve_session)
          (resolve_live-keeps service token now (load_live_session service now token db).0
            (load_live_session service now token db).1
            (load_live_session-keeps service token now db h))
  ]

pub LoggedOut-resolve_session :
    (service : AuthService) (uid token : String) (now : ℕ) (db : AuthDb)
    → LoggedOut uid db
    → LoggedOut uid (resolve_session service now token db).1
LoggedOut-resolve_session service uid token now db h =
    resolve_session-keeps (LoggedOut uid) (LoggedOut-delete uid) (LoggedOut-bump uid) service token
      now db h
