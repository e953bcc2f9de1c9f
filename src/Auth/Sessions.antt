-- ===== src/Auth/Sessions.antt =====
-- backend/src/auth/auth.service.ts over the tables of users, refresh tokens and logins. Times are
-- milliseconds. Parameters are `bcrypt.compare`, the hash of tokens, the days that a token lasts, and
-- the identifier and the random text of a new token. The signed access token and the profile in the
-- answer of a login hold no state and are left out, as are the address and the browser in the table
-- of logins. The foreign key of a refresh token makes sure that its user exists.
use digital_thread.Shared.{
  ℕ, ◌+◌, ◌*◌, String, Bool, true, false, not, ◌&&◌, Option, none, some, List, [], ◌∷◌, map, ◌==◌,
  if◌then◌else◌, leb, ltb, find, update_first,
}

pub record User : Type 0 where
  pub id : String
  pub email : String
  pub hashed_password : String
  pub is_active : Bool
  pub failed_login_attempts : ℕ
  pub locked_until : Option ℕ
  pub last_login_at : Option ℕ

pub record RefreshToken : Type 0 where
  pub id : String
  pub user_id : String
  pub token_hash : String
  pub expires_at : ℕ
  pub revoked : Bool

pub data LoginReason : Type 0 where
  invalid_credentials locked inactive fine : LoginReason

pub record LoginRecord : Type 0 where
  pub user_id : Option String
  pub email : String
  pub success : Bool
  pub reason : LoginReason

pub record Accounts : Type 0 where
  pub users : List User
  pub tokens : List RefreshToken
  pub logins : List LoginRecord

-- The raw refresh token, or an UnauthorizedException.
pub data Access : Type 0 where
  granted : String → Access
  unauthorized : Access

-- `MAX_FAILED_LOGINS` and `LOCKOUT_DURATION_MS`
abbrev pub max_failed_logins : ℕ
max_failed_logins = 10

abbrev pub lockout_duration : ℕ
lockout_duration = 30 * 60 * 1000

unfoldable pub record_login : Option String → String → Bool → LoginReason → Accounts → Accounts
record_login user email success reason a = record a {
  logins = record { user_id = user; email = email; success = success; reason = reason } ∷ a.logins;
}

-- `user.lockedUntil && user.lockedUntil > new Date()`
abbrev pub is_locked : ℕ → Option ℕ → Bool
is_locked now none = false
is_locked now (some t) = ltb now t

-- The row after a wrong password.
abbrev pub lock_for : ℕ → ℕ → Option ℕ
lock_for now failed = if leb max_failed_logins failed then some (now + lockout_duration) else none

abbrev pub failed_row : ℕ → ℕ → User → User
failed_row now failed u = record u {
  failed_login_attempts = failed;
  locked_until = lock_for now failed;
}

abbrev pub logged_in : ℕ → User → User
logged_in now u = record u {
  failed_login_attempts = 0;
  locked_until = none;
  last_login_at = some now;
}

abbrev pub put_user : String → (User → User) → Accounts → Accounts
put_user id f a = record a { users = update_first (λ u. u.id == id) f a.users }

abbrev pub failure_reason : Option ℕ → LoginReason
failure_reason none = invalid_credentials
failure_reason (some t) = locked

abbrev pub find_user : String → Accounts → Option User
find_user email a = find (λ u. u.email == email) a.users

-- The `where` of a token that may be used.
abbrev pub is_live : String → RefreshToken → Bool
is_live hash t = t.token_hash == hash && not t.revoked

abbrev pub revoke : RefreshToken → RefreshToken
revoke t = record t { revoked = true }

abbrev pub revoke_token : String → Accounts → Accounts
revoke_token id a = record a { tokens = update_first (λ t. t.id == id) revoke a.tokens }

module _ (compare_password : String → String → Bool) (hash_token : String → String)
    (token_days : ℕ) where
  -- `generateTokens`
  unfoldable pub generate_tokens : ℕ → String → String → User → Accounts → Access × Accounts
  generate_tokens now id raw u a = (
    granted raw,
    record a {
      tokens =
          record {
            id = id;
            user_id = u.id;
            token_hash = hash_token raw;
            expires_at = now + token_days * 24 * 60 * 60 * 1000;
            revoked = false;
          }
          ∷ a.tokens;
    },
  )

  unfoldable pub fail_login : ℕ → String → User → Accounts → Access × Accounts
  fail_login now email u a = (
    unauthorized,
    record_login (some u.id) email false
        (failure_reason (lock_for now (u.failed_login_attempts + 1)))
        (put_user u.id (failed_row now (u.failed_login_attempts + 1)) a),
  )

  unfoldable pub pass_login : ℕ → String → String → String → User → Accounts → Access × Accounts
  pass_login now id raw email u a =
      generate_tokens now id raw u
        (record_login (some u.id) email true fine (put_user u.id (logged_in now) a))

  unfoldable pub login_user :
      ℕ → String → String → String → String → User → Accounts → Access × Accounts
  login_user now id raw email password u a =
      if not u.is_active
      then (unauthorized, record_login (some u.id) email false inactive a)
      else if is_locked now u.locked_until
      then (unauthorized, record_login (some u.id) email false locked a)
      else if compare_password password u.hashed_password
      then pass_login now id raw email u a
      else fail_login now email u a

  unfoldable pub login : ℕ → String → String → String → String → Accounts → Access × Accounts
  login now id raw email password a = elim (find_user email a) [
    | none ↦ (unauthorized, record_login none email false invalid_credentials a)
    | some u ↦ login_user now id raw email password u a
  ]

  -- The new tokens of the user of a token.
  unfoldable pub renew : ℕ → String → String → String → Accounts → Access × Accounts
  renew now id raw user a = elim (find (λ u. u.id == user) a.users) [
    | none ↦ (unauthorized, a)
    | some u ↦ generate_tokens now id raw u a
  ]

  unfoldable pub refresh : ℕ → String → String → String → Accounts → Access × Accounts
  refresh now id raw old a = elim (find (is_live (hash_token old)) a.tokens) [
    | none ↦ (unauthorized, a)
    | some t ↦
        if ltb t.expires_at now
        then (unauthorized, a)
        else renew now id raw t.user_id (revoke_token t.id a)
  ]

-- `logout`: every token of the user is revoked.
abbrev pub revoke_of : String → RefreshToken → RefreshToken
revoke_of user t = if t.user_id == user then record t { revoked = true } else t

unfoldable pub logout : String → Accounts → Accounts
logout user a = record a { tokens = map (revoke_of user) a.tokens }

-- The calls that change the tables.
pub data Call : Type 0 where
  logging_in : (now : ℕ) (id raw email password : String) → Call
  refreshing : (now : ℕ) (id raw old : String) → Call
  logging_out : (user : String) → Call

module _ (compare_password : String → String → Bool) (hash_token : String → String)
    (token_days : ℕ) where
  unfoldable pub answer : Call → Accounts → Accounts
  answer (logging_in now id raw email password) a =
      (login compare_password hash_token token_days now id raw email password a).1
  answer (refreshing now id raw old) a =
      (refresh compare_password hash_token token_days now id raw old a).1
  answer (logging_out user) a = logout user a

  unfoldable pub after : List Call → Accounts → Accounts
  after [] a = a
  after (c ∷ cs) a = after cs (answer c a)
