-- ===== src/Auth/Service/Quota.antt =====
-- blunder_tutor/auth/core/service.py with blunder_tutor/auth/core/policies.py: the cap on the users.
use chess_blunder_trainer.Common.{
  ℕ, ◌≤◌, ◌<◌, length-append, ◌≡◌, Bool, true, false, List, [], ◌∷◌, ◌==◌, not, string_eq, keep,
  arith, All, length, inl, inr,
}
use chess_blunder_trainer.Auth.Tables.{AuthDb}
use chess_blunder_trainer.Auth.Tables.UserRepository
use chess_blunder_trainer.Auth.Tables.IdentityRepository
use chess_blunder_trainer.Auth.Tables.SessionRepository
use chess_blunder_trainer.Auth.Service.{
  AuthService, revoke_session, revoke_all_sessions, delete_account, change_password,
}
use chess_blunder_trainer.Auth.Service.Runs.{
  Op, do_register, do_signup, do_create_session, do_resolve, do_revoke, do_revoke_all, do_delete,
  do_change_password, step, run,
}
use chess_blunder_trainer.Auth.Policies.{max_users_quota, allow_signup}
use chess_blunder_trainer.Auth.Service.{signup, SignupRequest, user_of}
use chess_blunder_trainer.Auth.Service.Signup.{db-signup}
use chess_blunder_trainer.Auth.Service.Sessions.{resolve_session-keeps, users-create_session}

-- the operation is not `register`, which leaves the policies aside
unfoldable pub is_gated : Op → Bool
is_gated (do_register r) = false
is_gated _ = true

length-keep : {A : Type 0} (p : A → Bool) (xs : List A) → length (keep p xs) ≤ length xs
unfolding keep
length-keep p [] = omega arith
length-keep p (x ∷ xs) = ground (arith, length-keep p xs)

abbrev Capped : ℕ → AuthDb → Type 0
Capped n db = length db.users ≤ n

room :
    (service : AuthService) (n count : ℕ)
    → service.quota ≡ max_users_quota n
    → allow_signup service.quota count ≡ true
    → count < n
unfolding allow_signup
room service n count q a = ground (arith, q, a)

Capped-signup :
    (service : AuthService) (n : ℕ) (r : SignupRequest) (db : AuthDb)
    → service.quota ≡ max_users_quota n
    → Capped n db
    → Capped n (signup service r db).1
unfolding UserRepository.count
Capped-signup service n r db q h = elim (db-signup service r db) [
  | inl p ↦ rw p h
  | inr (u, done) ↦ rw (done.inserted.users) (
      omega (
        arith,
        length-append db.users (user_of r ∷ []),
        room service n (UserRepository.count db) q done.allowed,
      ))
]

step-Capped :
    (service : AuthService) (n : ℕ) (o : Op) (db : AuthDb)
    → service.quota ≡ max_users_quota n
    → is_gated o ≡ true
    → Capped n db
    → Capped n (step service o db)
unfolding step is_gated revoke_session revoke_all_sessions delete_account UserRepository.delete
step-Capped service n (do_register r) db q g h = cc
step-Capped service n (do_signup r) db q g h = Capped-signup service n r db q h
step-Capped service n (do_create_session token user_id ua ip now) db q g h =
    rw (users-create_session service token user_id ua ip now db) h
step-Capped service n (do_resolve now token) db q g h =
    resolve_session-keeps (Capped n) (λ t d k. unfold SessionRepository.delete in k)
      (λ t x d k. unfold SessionRepository.bump_last_seen in k) service token now db h
step-Capped service n (do_revoke token) db q g h = unfold SessionRepository.delete in h
step-Capped service n (do_revoke_all user_id) db q g h =
    unfold SessionRepository.delete_all_for_user in h
step-Capped service n (do_delete user_id) db q g h =
    omega (arith, h, length-keep (λ u. not (u.id == user_id)) db.users)
step-Capped service n (do_change_password user_id identity_id pw) db q g h =
    unfold change_password SessionRepository.delete_all_for_user
      IdentityRepository.update_credential in
    ground (arith, h)

-- With a cap on the users, no operations but `register` bring their number above the cap.
pub user_cap_holds :
    (service : AuthService) (max_users : ℕ) (os : List Op) (db : AuthDb)
    → service.quota ≡ max_users_quota max_users
    → All (λ o. is_gated o ≡ true) os
    → length db.users ≤ max_users
    → length (run service os db).users ≤ max_users
unfolding run
user_cap_holds service max_users [] db q g h = h
user_cap_holds service max_users (o ∷ os) db q g h =
    user_cap_holds service max_users os (step service o db) q g.1
      (step-Capped service max_users o db q g.0 h)
