-- ===== src/Auth/Tests.antt =====
-- Ann, who mistypes the password and refreshes.
use digital_thread.Shared.{
  String, ◌≡◌, refl, Bool, true, false, none, some, List, [], ◌∷◌, ◌++◌, map, ◌==◌,
}
use digital_thread.Auth.Sessions.{
  User, RefreshToken, Accounts, granted, unauthorized, locked, Call, refreshing, logging_in,
  logging_out, record_login, generate_tokens, fail_login, pass_login, login_user, login, renew,
  refresh, logout, answer, after,
}
use digital_thread.Auth.Lockout.{locked_out}
use digital_thread.Auth.Rotation.{refresh_once}

abbrev ann : User
ann = record {
  id = "ann";
  email = "ann@forge.eu";
  hashed_password = "steel";
  is_active = true;
  failed_login_attempts = 7;
  locked_until = none;
  last_login_at = none;
}

abbrev token : RefreshToken
token = record { id = "t1"; user_id = "ann"; token_hash = "r1"; expires_at = 900; revoked = false }

abbrev accounts : Accounts
accounts = record { users = ann ∷ []; tokens = token ∷ []; logins = [] }

abbrev hash : String → String
hash text = text

abbrev compare : String → String → Bool
compare password digest = hash password == digest

abbrev calls : List Call
calls =
    refreshing 20 "t3" "r3" "r2"
    ∷ logging_in 30 "t4" "r4" "ann@forge.eu" "steel"
    ∷ logging_out "bob"
    ∷ []

refresh_once_example :
    (refresh compare hash 7 40 "t5" "r5" "r1"
      (after compare hash 7 calls (refresh compare hash 7 10 "t2" "r2" "r1" accounts).1)).0
    ≡ unauthorized
unfolding refresh renew generate_tokens
refresh_once_example =
    refresh_once compare hash 7 10 "t2" "r2" "r1" accounts token refl refl refl refl refl calls refl
      40 "t5" "r5"

abbrev tries : List Call
tries =
    logging_in 1 "t2" "r2" "ann@forge.eu" "stele"
    ∷ logging_in 2 "t2" "r2" "ann@forge.eu" "stell"
    ∷ logging_in 3 "t2" "r2" "ann@forge.eu" "steal"
    ∷ []

locked_out_example :
    login compare hash 7 1800002 "t2" "r2" "ann@forge.eu" "steel"
      (after compare hash 7 tries accounts)
    ≡ (
      unauthorized,
      record_login (some "ann") "ann@forge.eu" false locked (after compare hash 7 tries accounts),
    )
locked_out_example =
    locked_out compare hash 7 "t2" "r2" "ann@forge.eu" ((1, "stele") ∷ (2, "stell") ∷ []) 3 "steal"
      ann accounts (refl, refl) refl refl refl refl refl 1800002 "steel" refl

-- The thirty minutes over, the right password is good again, and resets the failures.
login_test :
    let r =
      login compare hash 7 1800003 "t2" "r2" "ann@forge.eu" "steel"
        (after compare hash 7 tries accounts) in
    (r.0 ≡ granted "r2") × (map (λ u. u.failed_login_attempts) r.1.users ≡ 0 ∷ [])
unfolding login login_user fail_login pass_login generate_tokens record_login answer after
login_test = (refl, refl)

-- A wrong password then locks the account at once.
relocked_test :
    map
      (λ u. u.locked_until)
      (after compare hash 7
        (tries ++ logging_in 1800003 "t2" "r2" "ann@forge.eu" "stole" ∷ [])
        accounts).users
    ≡ some 3600003 ∷ []
unfolding login login_user fail_login pass_login generate_tokens record_login answer after
relocked_test = refl

-- A user who is disabled no longer logs in, but refreshes.
abbrev disabled : Accounts
disabled = record accounts { users = record ann { is_active = false } ∷ [] }

disabled_test :
    ((login compare hash 7 10 "t2" "r2" "ann@forge.eu" "steel" disabled).0 ≡ unauthorized)
    × ((refresh compare hash 7 10 "t2" "r2" "r1" disabled).0 ≡ granted "r2")
unfolding login login_user record_login refresh renew generate_tokens
disabled_test = (refl, refl)

expired_test : (refresh compare hash 7 901 "t2" "r2" "r1" accounts).0 ≡ unauthorized
unfolding refresh
expired_test = refl

logout_test : (refresh compare hash 7 10 "t2" "r2" "r1" (logout "ann" accounts)).0 ≡ unauthorized
unfolding refresh logout
logout_test = refl
