-- ===== src/Security/Access/Laws.antt =====
-- Who passes the dependencies of backend/app/security/auth.py.
use kosmohack_final.Security.Auth.Rotation.{logout-tokens}
use kosmohack_final.Models.Accounts.{User, AuthSession, RefreshToken}
use kosmohack_final.Session.{err, request, ok}
use kosmohack_final.Security.Auth.{end_session, revoke_session, logout}
use kosmohack_final.Security.Accounts.{
  get_user, minutes, get_session, find_token, Claims, Fresh, Settings, Library,
}
use kosmohack_final.Prelude.{
  subst, ◌∙◌, [], ◌∷◌, refl, update, ◌==◌, false, find, Option, List, arith, inr, Bool-cases, inl,
  Option-cases, ◌+◌, ◌≤◌, ◌<◌, none, is_none, some, true, contains, ◌↔◌, Text, ◌≡◌, ℕ,
}
use kosmohack_final.Security.Access.{
  get_user, admit, minutes, invalid_access_token, err, get_session, Claims, ok, Tables, Principal,
  Library, current_principal, require_critical_permission,
}

-- A critical action is let through exactly when the caller has the permission, and a session that
-- is not revoked, not expired, and authenticated within the last minutes given.
pub critical_iff :
    (permission freshness now : ℕ) (principal : Principal) (db : Tables)
    → (require_critical_permission permission freshness now principal db ≡ ok principal) ↔ (
        (contains permission principal.permissions ≡ true)
        × ((s : AuthSession) × (get_session principal.session_id db ≡ some s)
            × (s.revoked_at ≡ none)
            × (now < s.expires_at)
            × (now ≤ s.last_authenticated_at + minutes freshness)))
unfolding require_critical_permission
critical_iff permission freshness now principal db = (
  λ h. elim (Bool-cases (contains permission principal.permissions)) [
    | inr lacks ↦ absurd (ground arith)
    | inl has ↦ elim (Option-cases (get_session principal.session_id db)) [
      | inl gone ↦ absurd (ground arith)
      | inr (s, here) ↦ (has, (s, here, ground arith, ground arith, ground arith))
    ]
  ],
  λ (has, (s, here, live, valid, recent)). ground arith,
)

module _ (lib : Library) (settings : Settings) where
  find-revoked :
      (now id : ℕ) (sessions : List AuthSession) (s : AuthSession)
      → find (λ x. x.id == id) (update (λ x. x.id == id) (revoke_session lib settings now) sessions)
        ≡ some s
      → is_none s.revoked_at ≡ false
  find-revoked now id [] s e = absurd (ground arith)
  find-revoked now id (x ∷ xs) s e = elim (Bool-cases (x.id == id)) [
    | inl y ↦ elim (Option-cases x.revoked_at) [ inl n ↦ ground arith | inr (a, n) ↦ ground arith ]
    | inr n ↦ ground (arith, find-revoked now id xs s)
  ]

revoked_refused :
    (now : ℕ) (c : Claims) (u : Option User) (o : Option AuthSession) (db : Tables)
    → ((s : AuthSession) → o ≡ some s → is_none s.revoked_at ≡ false)
    → admit now c u o db ≡ err invalid_access_token
revoked_refused now c none o db h = refl
revoked_refused now c (some u) none db h = refl
revoked_refused now c (some u) (some s) db h = ground (arith, h s refl)

-- After a log-out with an active token, the access tokens of its session are refused, for whatever
-- they claim, at any time.
pub logged_out_no_access :
    (lib : Library) (settings : Settings) (fresh : Fresh) (token access : Text) (now : ℕ)
    (db : Tables) (t : RefreshToken) (c : Claims)
    → find_token (lib.token_hash token) db ≡ some t
    → is_none t.revoked_at ≡ true
    → lib.decode now access ≡ some c
    → c.session_id ≡ t.session_id
    → current_principal lib now (some access) (request (logout lib settings fresh token) db).1
      ≡ err invalid_access_token
unfolding current_principal
logged_out_no_access lib settings fresh token access now db t c found active claims same =
    let out = end_session lib settings fresh t db in
    let step : current_principal lib now (some access) out
        ≡ admit now c (get_user c.user_id out) (get_session c.session_id out) out =
      ground arith in
    rw (logout-tokens lib settings fresh token db t found active) (
      step
      ∙ revoked_refused now c _ _ out (λ s e.
        find-revoked lib settings fresh.now t.session_id db.sessions s
          (subst (λ id. get_session id out ≡ some s) same e)))
