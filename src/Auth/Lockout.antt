-- ===== src/Auth/Lockout.antt =====
-- Ten wrong passwords lock an account.
use digital_thread.Shared.{
  ℕ, ◌+◌, String, ◌≡◌, refl, inl, inr, ◌++◌, ◌<◌, Bool, true, false, not, none, some, List, [], ◌∷◌,
  map, length, all, find_passes, arith, ◌==◌, ltb, find, update_first, Bool-cases,
}
use digital_thread.Auth.Sessions

-- The row that two keys lead to is found by the first after it is updated by the second.
find-update_first :
    {A : Type 0} (p q : A → Bool) (f : A → A) (xs : List A) (t : A)
    → p t ≡ true
    → q t ≡ true
    → p (f t) ≡ true
    → find p xs ≡ some t
    → find q xs ≡ some t
    → find p (update_first q f xs) ≡ some (f t)
find-update_first p q f [] t pt qt pf e k = absurd (ground arith)
find-update_first p q f (x ∷ xs) t pt qt pf e k = elim (Bool-cases (p x)) [
  | inl u ↦ elim (Bool-cases (q x)) [ inl v ↦ ground arith | inr v ↦ absurd (ground arith) ]
  | inr u ↦ elim (Bool-cases (q x)) [
    | inl v ↦ absurd (ground arith)
    | inr v ↦ ground (arith, find-update_first p q f xs t pt qt pf)
  ]
]

-- The account of an address, when its identifier is its own.
abbrev IsAccount : String → Sessions.User → Sessions.Accounts → Type 0
IsAccount email u a =
    (Sessions.find_user email a ≡ some u) × (find (λ v. v.id == u.id) a.users ≡ some u)

put_user-IsAccount :
    (email : String) (now : ℕ) (u : Sessions.User) (a : Sessions.Accounts)
    → IsAccount email u a
    → IsAccount email
        (Sessions.failed_row now (u.failed_login_attempts + 1) u)
        (Sessions.put_user u.id (Sessions.failed_row now (u.failed_login_attempts + 1)) a)
put_user-IsAccount email now u a (e, k) =
    let by_email : (u.email == email) ≡ true = find_passes (λ v. v.email == email) a.users u e in
    let by_id : (u.id == u.id) ≡ true = find_passes (λ v. v.id == u.id) a.users u k in
    (
      find-update_first (λ v. v.email == email) (λ v. v.id == u.id)
          (Sessions.failed_row now (u.failed_login_attempts + 1)) a.users u by_email by_id by_email
          e k,
      find-update_first (λ v. v.id == u.id) (λ v. v.id == u.id)
          (Sessions.failed_row now (u.failed_login_attempts + 1)) a.users u by_id by_id by_id k k,
    )

lock_for-full :
    (now : ℕ) (u : Sessions.User)
    → u.failed_login_attempts + 1 ≡ 10
    → Sessions.lock_for now (u.failed_login_attempts + 1) ≡ some (now + Sessions.lockout_duration)
lock_for-full now u h = rw h refl

lock_for-short :
    (now : ℕ) (u : Sessions.User)
    → (u.failed_login_attempts + 1) < 10
    → Sessions.lock_for now (u.failed_login_attempts + 1) ≡ none
lock_for-short now u h = ground arith

module _ (compare_password : String → String → Bool) (hash_token : String → String) (token_days : ℕ)
    (id raw : String) where
  -- A login at a time with a password.
  abbrev attempt : String → ℕ × String → Sessions.Call
  attempt email (now, password) = Sessions.logging_in now id raw email password

  abbrev is_wrong : Sessions.User → ℕ × String → Bool
  is_wrong u (now, password) = not (compare_password password u.hashed_password)

  -- A wrong password of an account that is not locked.
  login-wrong :
      (email : String) (now : ℕ) (password : String) (u : Sessions.User) (a : Sessions.Accounts)
      → IsAccount email u a
      → u.is_active ≡ true
      → u.locked_until ≡ none
      → compare_password password u.hashed_password ≡ false
      → Sessions.login compare_password hash_token token_days now id raw email password a
        ≡ Sessions.fail_login compare_password hash_token token_days now email u a
  unfolding Sessions.login Sessions.login_user
  login-wrong email now password u a (e, k) active unlocked wrong =
      rw (Sessions.login, e, Sessions.login_user, active, unlocked, wrong) refl

  login-locked :
      (email : String) (now till : ℕ) (password : String) (u : Sessions.User)
      (a : Sessions.Accounts)
      → IsAccount email u a
      → u.is_active ≡ true
      → u.locked_until ≡ some till
      → ltb now till ≡ true
      → Sessions.login compare_password hash_token token_days now id raw email password a
        ≡ (Sessions.unauthorized, Sessions.record_login (some u.id) email false Sessions.locked a)
  unfolding Sessions.login Sessions.login_user
  login-locked email now till password u a (e, k) active shut early =
      rw (Sessions.login, e, Sessions.login_user, active, shut, early) refl

  -- After as many wrong passwords as bring the failures of an account that is active and not locked
  -- to ten, every login within thirty minutes of the last is unauthorized, with the right password
  -- too, and changes nothing but the list of logins.
  pub locked_out :
      (email : String) (ws : List (ℕ × String)) (last : ℕ) (password : String) (u : Sessions.User)
      (a : Sessions.Accounts)
      → IsAccount email u a
      → u.is_active ≡ true
      → u.locked_until ≡ none
      → u.failed_login_attempts + length ws + 1 ≡ Sessions.max_failed_logins
      → all (is_wrong u) ws ≡ true
      → is_wrong u (last, password) ≡ true
      → (later : ℕ) (any_password : String) → ltb later (last + Sessions.lockout_duration) ≡ true
      → Sessions.login compare_password hash_token token_days later id raw email any_password (
          Sessions.after compare_password hash_token token_days
            (map (attempt email) ws ++ attempt email (last, password) ∷ [])
            a)
        ≡ (
          Sessions.unauthorized,
          Sessions.record_login (some u.id) email false Sessions.locked (
              Sessions.after compare_password hash_token token_days
                (map (attempt email) ws ++ attempt email (last, password) ∷ [])
                a),
        )
  unfolding Sessions.after Sessions.answer Sessions.fail_login Sessions.record_login
  locked_out email [] last password u a account active unlocked n all_wrong wrong later any_password
        early =
      rw
        (
          Sessions.after,
          Sessions.answer,
          login-wrong email last password u a account active unlocked (ground arith),
        )
        (login-locked email later (last + Sessions.lockout_duration) any_password
          (Sessions.failed_row last (u.failed_login_attempts + 1) u)
          (Sessions.fail_login compare_password hash_token token_days last email u a).1
          (put_user-IsAccount email last u a account) active
          (lock_for-full last u (omega (arith, n))) early)
  locked_out email ((now, w) ∷ ws) last password u a account active unlocked n all_wrong wrong later
        any_password early =
      rw
        (
          Sessions.after,
          Sessions.answer,
          login-wrong email now w u a account active unlocked (ground arith),
        )
        (locked_out email ws last password (Sessions.failed_row now (u.failed_login_attempts + 1) u)
          (Sessions.fail_login compare_password hash_token token_days now email u a).1
          (put_user-IsAccount email now u a account) active
          (lock_for-short now u (omega (arith, n))) (omega (arith, n)) (ground arith) wrong later
          any_password early)
