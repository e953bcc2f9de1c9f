-- ===== src/Auth/Rotation.antt =====
-- A refresh token is good for one refresh.
use digital_thread.Shared.{
  ℕ, String, ◌≡◌, refl, inl, inr, Bool, true, false, not, none, some, List, [], ◌∷◌, map,
  find_passes, arith, ◌==◌, ltb, any, all, count, find, update_first, Bool-cases, Option-cases,
  if_cases,
}
use digital_thread.Auth.Sessions

-- No live token has the hash.
abbrev IsSpent : String → Sessions.Accounts → Type 0
IsSpent h a = any (Sessions.is_live h) a.tokens ≡ false

abbrev LeavesSpent : String → Sessions.Access × Sessions.Accounts → Type 0
LeavesSpent h r = IsSpent h r.1

any-update_first-false :
    (h : String) (p : Sessions.RefreshToken → Bool) (ts : List Sessions.RefreshToken)
    → any (Sessions.is_live h) ts ≡ false
    → any (Sessions.is_live h) (update_first p Sessions.revoke ts) ≡ false
any-update_first-false h p [] k = refl
any-update_first-false h p (t ∷ ts) k = ground (arith, any-update_first-false h p ts)

any-revoke_of-false :
    (h user : String) (ts : List Sessions.RefreshToken)
    → any (Sessions.is_live h) ts ≡ false
    → any (Sessions.is_live h) (map (Sessions.revoke_of user) ts) ≡ false
any-revoke_of-false h user [] k = refl
any-revoke_of-false h user (t ∷ ts) k = ground (arith, any-revoke_of-false h user ts)

module _ {A : Type 0} (p q : A → Bool) (f : A → A) (never : (a : A) → p (f a) ≡ false) where
  any-count_zero : (xs : List A) → count p xs ≡ 0 → any p xs ≡ false
  any-count_zero [] k = refl
  any-count_zero (x ∷ xs) k = ground (arith, any-count_zero xs)

  -- The one element that passes is the one that is updated.
  any-update_first_only :
      (xs : List A) (t : A)
      → p t ≡ true
      → q t ≡ true
      → find p xs ≡ some t
      → find q xs ≡ some t
      → count p xs ≡ 1
      → any p (update_first q f xs) ≡ false
  any-update_first_only [] t pt qt e k c = refl
  any-update_first_only (x ∷ xs) t pt qt e k c = elim (Bool-cases (p x)) [
    | inl u ↦ elim (Bool-cases (q x)) [
      | inl v ↦ ground (arith, any-count_zero xs, never x)
      | inr v ↦ absurd (ground arith)
    ]
    | inr u ↦ elim (Bool-cases (q x)) [
      | inl v ↦ absurd (ground arith)
      | inr v ↦ ground (arith, any-update_first_only xs t pt qt)
    ]
  ]

find-none : {A : Type 0} → (p : A → Bool) (xs : List A) → any p xs ≡ false → find p xs ≡ none
find-none p [] k = refl
find-none p (x ∷ xs) k = ground (arith, find-none p xs)

module _ (compare_password : String → String → Bool) (hash_token : String → String)
    (token_days : ℕ) where
  -- The raw token that a call may create hashes to something else.
  abbrev pub is_fresh : String → Sessions.Call → Bool
  is_fresh h (Sessions.logging_in now id raw email password) = not (hash_token raw == h)
  is_fresh h (Sessions.refreshing now id raw old) = not (hash_token raw == h)
  is_fresh h (Sessions.logging_out user) = true

  generate_tokens_lem :
      (h : String) (now : ℕ) (id raw : String) (u : Sessions.User) (a : Sessions.Accounts)
      → (hash_token raw == h) ≡ false
      → IsSpent h a
      → IsSpent h (Sessions.generate_tokens compare_password hash_token token_days now id raw u a).1
  unfolding Sessions.generate_tokens
  generate_tokens_lem h now id raw u a fresh k = ground arith

  renew_lem :
      (h : String) (now : ℕ) (id raw user : String) (a : Sessions.Accounts)
      → (hash_token raw == h) ≡ false
      → IsSpent h a
      → IsSpent h (Sessions.renew compare_password hash_token token_days now id raw user a).1
  unfolding Sessions.renew
  renew_lem h now id raw user a fresh k = elim (Option-cases (find (λ u. u.id == user) a.users)) [
    | inl e ↦ rw (Sessions.renew, e) k
    | inr (u, e) ↦ rw (Sessions.renew, e) (generate_tokens_lem h now id raw u a fresh k)
  ]

  refresh_lem :
      (h : String) (now : ℕ) (id raw old : String) (a : Sessions.Accounts)
      → (hash_token raw == h) ≡ false
      → IsSpent h a
      → IsSpent h (Sessions.refresh compare_password hash_token token_days now id raw old a).1
  unfolding Sessions.refresh
  refresh_lem h now id raw old a fresh k =
      elim (Option-cases (find (Sessions.is_live (hash_token old)) a.tokens)) [
        | inl e ↦ rw (Sessions.refresh, e) k
        | inr (t, e) ↦
            rw (Sessions.refresh, e)
              (if_cases (LeavesSpent h) (ltb t.expires_at now) _ _ (λ u. k)
                (λ u.
                  renew_lem h now id raw t.user_id (Sessions.revoke_token t.id a) fresh
                    (any-update_first-false h (λ x. x.id == t.id) a.tokens k)))
      ]

  login_user_lem :
      (h : String) (now : ℕ) (id raw email password : String) (u : Sessions.User)
      (a : Sessions.Accounts)
      → (hash_token raw == h) ≡ false
      → IsSpent h a
      → IsSpent h
          (Sessions.login_user compare_password hash_token token_days now id raw email password u
            a).1
  unfolding Sessions.login_user Sessions.pass_login Sessions.fail_login Sessions.record_login
  login_user_lem h now id raw email password u a fresh k =
      if_cases (LeavesSpent h) (not u.is_active) _ _ (λ v. k)
        (λ v.
          if_cases (LeavesSpent h) (Sessions.is_locked now u.locked_until) _ _ (λ w. k)
            (λ w.
              if_cases (LeavesSpent h) (compare_password password u.hashed_password) _ _
                (λ z. generate_tokens_lem h now id raw u _ fresh k) (λ z. k)))

  login_lem :
      (h : String) (now : ℕ) (id raw email password : String) (a : Sessions.Accounts)
      → (hash_token raw == h) ≡ false
      → IsSpent h a
      → IsSpent h
          (Sessions.login compare_password hash_token token_days now id raw email password a).1
  unfolding Sessions.login Sessions.record_login
  login_lem h now id raw email password a fresh k =
      elim (Option-cases (Sessions.find_user email a)) [
        | inl e ↦ rw (Sessions.login, e) k
        | inr (u, e) ↦
            rw (Sessions.login, e) (login_user_lem h now id raw email password u a fresh k)
      ]

  answer_lem :
      (h : String) (c : Sessions.Call) (a : Sessions.Accounts)
      → is_fresh h c ≡ true
      → IsSpent h a
      → IsSpent h (Sessions.answer compare_password hash_token token_days c a)
  unfolding Sessions.answer Sessions.logout
  answer_lem h (Sessions.logging_in now id raw email password) a fresh k =
      login_lem h now id raw email password a (ground arith) k
  answer_lem h (Sessions.refreshing now id raw old) a fresh k =
      refresh_lem h now id raw old a (ground arith) k
  answer_lem h (Sessions.logging_out user) a fresh k = any-revoke_of-false h user a.tokens k

  after_lem :
      (h : String) (cs : List Sessions.Call) (a : Sessions.Accounts)
      → all (is_fresh h) cs ≡ true
      → IsSpent h a
      → IsSpent h (Sessions.after compare_password hash_token token_days cs a)
  unfolding Sessions.after
  after_lem h [] a fresh k = k
  after_lem h (c ∷ cs) a fresh k =
      after_lem h cs _ (ground arith) (answer_lem h c a (ground arith) k)

  spent_refused :
      (now : ℕ) (id raw old : String) (a : Sessions.Accounts)
      → IsSpent (hash_token old) a
      → (Sessions.refresh compare_password hash_token token_days now id raw old a).0
        ≡ Sessions.unauthorized
  unfolding Sessions.refresh
  spent_refused now id raw old a k =
      rw (Sessions.refresh, find-none (Sessions.is_live (hash_token old)) a.tokens k) refl

  -- A refresh that is granted leaves the token spent.
  refresh_spends :
      (now : ℕ) (id raw old : String) (a : Sessions.Accounts) (t : Sessions.RefreshToken)
      → find (Sessions.is_live (hash_token old)) a.tokens ≡ some t
      → find (λ u. u.id == t.id) a.tokens ≡ some t
      → count (Sessions.is_live (hash_token old)) a.tokens ≡ 1
      → (hash_token raw == hash_token old) ≡ false
      → (Sessions.refresh compare_password hash_token token_days now id raw old a).0
        ≡ Sessions.granted raw
      → IsSpent
          (hash_token old)
          (Sessions.refresh compare_password hash_token token_days now id raw old a).1
  unfolding Sessions.refresh
  refresh_spends now id raw old a t e k c fresh g = elim (Bool-cases (ltb t.expires_at now)) [
    | inl late ↦ absurd (not_granted (rw (Sessions.refresh, e, late) at g))
    | inr live ↦
        rw (Sessions.refresh, e, live)
          (renew_lem (hash_token old) now id raw t.user_id (Sessions.revoke_token t.id a) fresh (
            any-update_first_only (Sessions.is_live (hash_token old)) (λ u. u.id == t.id)
              Sessions.revoke (λ x. ground arith) a.tokens t
              (find_passes (Sessions.is_live (hash_token old)) a.tokens t e)
              (find_passes (λ u. u.id == t.id) a.tokens t k) e k c))
  ]
    where
      not_granted : {r : String} → ¬ (Sessions.unauthorized ≡ Sessions.granted r)
      not_granted p = ground arith

  -- A refresh token is good for one refresh. When its hash is that of one token that is not revoked,
  -- the identifier of that token is its own, and no raw token that is made later hashes to it, then
  -- after a refresh with it is granted, and after any sequence of logins, refreshes and logouts, a
  -- refresh with it is unauthorized.
  pub refresh_once :
      (now : ℕ) (id raw old : String) (a : Sessions.Accounts) (t : Sessions.RefreshToken)
      → find (Sessions.is_live (hash_token old)) a.tokens ≡ some t
      → find (λ u. u.id == t.id) a.tokens ≡ some t
      → count (Sessions.is_live (hash_token old)) a.tokens ≡ 1
      → (hash_token raw == hash_token old) ≡ false
      → (Sessions.refresh compare_password hash_token token_days now id raw old a).0
        ≡ Sessions.granted raw
      → (cs : List Sessions.Call) → all (is_fresh (hash_token old)) cs ≡ true
      → (later : ℕ) (id' raw' : String)
      → (Sessions.refresh compare_password hash_token token_days later id' raw' old (
          Sessions.after compare_password hash_token token_days cs
            (Sessions.refresh compare_password hash_token token_days now id raw old a).1)).0
        ≡ Sessions.unauthorized
  refresh_once now id raw old a t e k c fresh g cs all_fresh later id' raw' =
      spent_refused later id' raw' old _ (
        after_lem (hash_token old) cs _ all_fresh (refresh_spends now id raw old a t e k c fresh g))
