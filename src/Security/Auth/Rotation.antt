-- ===== src/Security/Auth/Rotation.antt =====
-- The life of a refresh token in backend/app/api/auth.py: exchanged once, and ended by log-out.
use kosmohack_final.Session.{ok, err, request}
use kosmohack_final.Models.Accounts.{User, RefreshToken}
use kosmohack_final.Prelude.{
  find-true, find-map, refl, ◌∙◌, ap, find-append_some, true, Option-cases, ◌++◌, ◌==◌, ℕ, [], inr,
  inl, ◌∷◌, if◌then◌else◌, arith, false, is_none, update, some, find, ◌≡◌, Text,
}
use kosmohack_final.Security.Auth.{
  revoke_token, end_session, logout, new_token, spend, token_response, invalid_refresh_token,
  RefreshToken, refresh,
}
use kosmohack_final.Security.Accounts.{
  get_session, get_user, TokenResponse, find_token, Tables, Fresh, Settings, Library,
}

module _ (lib : Library) (settings : Settings) where
  pub refresh_refuses :
      (fresh : Fresh) (token : Text) (db : Tables) (t : RefreshToken)
      → find_token (lib.token_hash token) db ≡ some t
      → is_none t.revoked_at ≡ false
      → request (refresh lib settings fresh token) db ≡ (err invalid_refresh_token, db)
  unfolding refresh
  refresh_refuses fresh token db t found spent = ground arith

  token_response-tokens :
      (fresh : Fresh) (id : ℕ) (user : User) (db : Tables)
      → (token_response lib settings fresh id user db).tokens
        ≡ db.tokens ++ new_token lib settings fresh id user ∷ []
  token_response-tokens fresh id user db = elim (Option-cases (get_session id db)) [
    | inl e ↦ ground arith
    | inr (s, e) ↦ ground arith
  ]

  -- The tokens that a refresh leaves when it succeeds: a new one is added, its own is spent.
  refresh-tokens :
      (fresh : Fresh) (token : Text) (db db' : Tables) (r : TokenResponse)
      → request (refresh lib settings fresh token) db ≡ (ok r, db')
      → (t : RefreshToken) × (u : User) × (find_token (lib.token_hash token) db ≡ some t)
        × (db'.tokens
            ≡ update
                (λ x. x.token_hash == lib.token_hash token)
                (spend lib settings fresh)
                (db.tokens ++ new_token lib settings fresh t.session_id u ∷ []))
  unfolding refresh
  refresh-tokens fresh token db db' r e =
      elim (Option-cases (find_token (lib.token_hash token) db)) [
        | inl n ↦ absurd (ground arith)
        | inr (t, found) ↦ elim (Option-cases (get_user t.user_id db)) [
          | inl n ↦ absurd (ground arith)
          | inr (u, known) ↦
              (t, u, found, ground (arith, token_response-tokens fresh t.session_id u db))
        ]
      ]

  -- A refresh token is exchanged once: after a refresh that succeeds, a second one with the same token
  -- fails at any time, and leaves the database as it is.
  pub refresh_once :
      (fresh again : Fresh) (token : Text) (db db' : Tables) (r : TokenResponse)
      → request (refresh lib settings fresh token) db ≡ (ok r, db')
      → request (refresh lib settings again token) db' ≡ (err invalid_refresh_token, db')
  refresh_once fresh again token db db' r e =
      let (t, u, found, tokens) = refresh-tokens fresh token db db' r e in
      let hash = lib.token_hash token in
      let kept =
        find-append_some (λ x. x.token_hash == hash) db.tokens
          (new_token lib settings fresh t.session_id u ∷ []) t found in
      let spent =
        find-map (λ x. x.token_hash == hash) (λ x. x.token_hash == hash) (spend lib settings fresh)
          _ t (λ x. refl) kept in
      let key : (t.token_hash == hash) ≡ true =
        find-true (λ x. x.token_hash == hash) db.tokens t found in
      refresh_refuses again token db' (spend lib settings fresh t)
        (ap (find (λ x. x.token_hash == hash)) tokens
          ∙ spent
          ∙ ap (λ b. some (if b then spend lib settings fresh t else t)) key)
        refl

  revoke_token-hash :
      (now hash : ℕ) (x : RefreshToken)
      → ((revoke_token lib settings now x).token_hash == hash) ≡ (x.token_hash == hash)
  revoke_token-hash now hash x = elim (Option-cases x.revoked_at) [
    | inl e ↦ rw e refl
    | inr (s, e) ↦ rw e refl
  ]

  revoke_token-revoked :
      (now : ℕ) (x : RefreshToken) → is_none (revoke_token lib settings now x).revoked_at ≡ false
  revoke_token-revoked now x = elim (Option-cases x.revoked_at) [
    | inl e ↦ rw e refl
    | inr (s, e) ↦ rw e refl
  ]

  pub logout-tokens :
      (fresh : Fresh) (token : Text) (db : Tables) (t : RefreshToken)
      → find_token (lib.token_hash token) db ≡ some t
      → is_none t.revoked_at ≡ true
      → (request (logout lib settings fresh token) db).1 ≡ end_session lib settings fresh t db
  unfolding logout
  logout-tokens fresh token db t found active = ground arith

  -- After a log-out with an active token, no token of its session is exchanged any more, at any time.
  logout_ends_session :
      (fresh again : Fresh) (token other : Text) (db : Tables) (t o : RefreshToken)
      → find_token (lib.token_hash token) db ≡ some t
      → is_none t.revoked_at ≡ true
      → find_token (lib.token_hash other) db ≡ some o
      → o.session_id ≡ t.session_id
      → let db' = (request (logout lib settings fresh token) db).1 in
        request (refresh lib settings again other) db' ≡ (err invalid_refresh_token, db')
  logout_ends_session fresh again token other db t o found active sibling same =
      let hash = lib.token_hash other in
      let here : (o.session_id == t.session_id) ≡ true = ground arith in
      let revoked =
        find-map (λ x. x.token_hash == hash) (λ x. x.session_id == t.session_id)
          (revoke_token lib settings fresh.now) db.tokens o (revoke_token-hash fresh.now hash)
          sibling in
      rw (logout-tokens fresh token db t found active) (
        refresh_refuses again other (end_session lib settings fresh t db)
          (revoke_token lib settings fresh.now o)
          (revoked ∙ ap (λ b. some (if b then revoke_token lib settings fresh.now o else o)) here)
          (revoke_token-revoked fresh.now o))
