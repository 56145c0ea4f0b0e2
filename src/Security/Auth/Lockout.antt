-- ===== src/Security/Auth/Lockout.antt =====
-- The lock of an account in backend/app/api/auth.py.
use kosmohack_final.Session.{ErrorCode, traceq_error, err, request}
use kosmohack_final.Models.Accounts.{User}
use kosmohack_final.Prelude.{
  ==_refl, if◌then◌else◌, [], ◌∷◌, ap, ◌+◌, ◌∙◌, All, find-map, update, arith, refl, inr, inl, suc,
  false, ◌<◌, none, leb, some, Bool-cases, ◌≡◌, ◌==◌, Text, ℕ,
}
use kosmohack_final.Security.Auth.{ErrorCode, traceq_error, User, count_failure, login}
use kosmohack_final.Security.Accounts.{minutes, find_user, Tables, Fresh, Settings, Library}

module _ (lib : Library) (settings : Settings) where
  count_failure-username :
      (now : ℕ) (username : Text) (u : User)
      → ((count_failure now u).username == username) ≡ (u.username == username)
  unfolding count_failure
  count_failure-username now username u = elim (Bool-cases (leb 5 (suc u.failed_login_attempts))) [
    | inl e ↦ rw e refl
    | inr e ↦ rw e refl
  ]

  denied-users :
      (fresh : Fresh) (username password : Text) (db : Tables) (u : User)
      → find_user username db ≡ some u
      → u.locked_until ≡ none
      → lib.verify_password u.password_hash password ≡ false
      → (request (login lib settings fresh username password) db).1.users
        ≡ update (λ x. x.id == u.id) (count_failure fresh.now) db.users
  unfolding login
  denied-users fresh username password db u found free wrong = ground arith

  denied_counts :
      (fresh : Fresh) (username password : Text) (db : Tables) (u : User)
      → find_user username db ≡ some u
      → u.locked_until ≡ none
      → lib.verify_password u.password_hash password ≡ false
      → find_user username (request (login lib settings fresh username password) db).1
        ≡ some (count_failure fresh.now u)
  denied_counts fresh username password db u found free wrong =
      rw (denied-users fresh username password db u found free wrong) (
        find-map (λ x. x.username == username) (λ x. x.id == u.id) (count_failure fresh.now)
          db.users u (count_failure-username fresh.now username) found
        ∙ ap (λ b. some (if b then count_failure fresh.now u else u)) (==_refl u.id))

  -- One more failure below the limit.
  fails_to :
      (fresh : Fresh) (username password : Text) (db : Tables) (u : User) (n : ℕ)
      → n < 4
      → u.locked_until ≡ none
      → lib.verify_password u.password_hash password ≡ false
      → find_user username db ≡ some (record u { failed_login_attempts = n })
      → find_user username (request (login lib settings fresh username password) db).1
        ≡ some (record u { failed_login_attempts = suc n })
  unfolding count_failure
  fails_to fresh username password db u n few free wrong found =
      denied_counts fresh username password db (record u { failed_login_attempts = n }) found free
        wrong
      ∙ ground arith

  -- The fifth failure.
  fails_last :
      (fresh : Fresh) (username password : Text) (db : Tables) (u : User)
      → u.locked_until ≡ none
      → lib.verify_password u.password_hash password ≡ false
      → find_user username db ≡ some (record u { failed_login_attempts = 4 })
      → find_user username (request (login lib settings fresh username password) db).1
        ≡ some
            (record u { failed_login_attempts = 0; locked_until = some (fresh.now + minutes 15) })
  unfolding count_failure
  fails_last fresh username password db u free wrong found =
      denied_counts fresh username password db (record u { failed_login_attempts = 4 }) found free
        wrong

  -- While an account is locked, no password is of use: the error is 423 and the account stays as it
  -- is.
  pub locked_refuses :
      (fresh : Fresh) (username password : Text) (db : Tables) (u : User) (until : ℕ)
      → find_user username db ≡ some u
      → u.locked_until ≡ some until
      → fresh.now < until
      → let (r, db') = request (login lib settings fresh username password) db in
        (r ≡ err (traceq_error ErrorCode.account_temporarily_locked 423)) × (db'.users ≡ db.users)
  unfolding login
  locked_refuses fresh username password db u until found locked early =
      (ground arith, ground arith)

  abbrev pub after : Text → Fresh × Text → Tables → Tables
  after username attempt db = (request (login lib settings attempt.0 username attempt.1) db).1

  abbrev pub IsWrong : User → Fresh × Text → Type 0
  IsWrong u attempt = lib.verify_password u.password_hash attempt.1 ≡ false

  -- Five wrong passwords in a row, from a count of zero on an account that is not locked, lock it: for
  -- fifteen minutes after the fifth, even the right password is refused with 423.
  pub five_failures_lock :
      (username : Text) (a1 a2 a3 a4 a5 next : Fresh × Text) (db : Tables) (u : User)
      → find_user username db ≡ some (record u { failed_login_attempts = 0 })
      → u.locked_until ≡ none
      → All (IsWrong u) (a1 ∷ a2 ∷ a3 ∷ a4 ∷ a5 ∷ [])
      → next.0.now < a5.0.now + minutes 15
      → (request (login lib settings next.0 username next.1) (
          after username a5
            (after username a4 (after username a3 (after username a2 (after username a1 db)))))).0
        ≡ err (traceq_error ErrorCode.account_temporarily_locked 423)
  five_failures_lock username a1 a2 a3 a4 a5 next db u found free wrong early =
      let h : (0 < 4) × (1 < 4) × (2 < 4) × (3 < 4) =
        (omega arith, omega arith, omega arith, omega arith) in
      let s1 = fails_to a1.0 username a1.1 _ u 0 h.0 free wrong.0 found in
      let s2 = fails_to a2.0 username a2.1 _ u 1 h.1 free wrong.1.0 s1 in
      let s3 = fails_to a3.0 username a3.1 _ u 2 h.2 free wrong.1.1.0 s2 in
      let s4 = fails_to a4.0 username a4.1 _ u 3 h.3 free wrong.1.1.1.0 s3 in
      let s5 = fails_last a5.0 username a5.1 _ u free wrong.1.1.1.1.0 s4 in
      (locked_refuses next.0 username next.1 _ _ (a5.0.now + minutes 15) s5 refl early).0
