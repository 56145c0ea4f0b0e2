-- ===== src/Ingestion/Sources.antt =====
-- The authentication of a source and what it may send, backend/app/ingestion/service.py. HMAC, hashes
-- and the reading of a transport time are functions of `Transport`. A request takes place at one
-- instant, in microseconds.
use kosmohack_final.Events.Json.{Json}
use kosmohack_final.Models.Log.{AuthMethod, EventSource, AlertType, SourceStatus}
use kosmohack_final.Ingestion.{Tables}
use kosmohack_final.Prelude.{
  if◌then◌else◌, ◌+◌, ◌-◌, not, [], leb, ◌==◌, ◌*◌, is_none, find, ◌∷◌, ◌&&◌, true, any, ltb,
  non_empty, false, Bool, List, ◌++◌, Option, Text, ℕ, some, none,
}
use kosmohack_final.Session.{
  raise, commit, pure, modify, raise_if, gets, or_raise, Action, traceq_error, TraceqError,
  ErrorCode, ◌>>=◌, ◌>>◌,
}

pub record Transport : Type 0 where
  -- The instant of a header; `none` is a ValueError or an OverflowError.
  pub parse_time : Text → Option ℕ
  -- The hex digest of timestamp, nonce and canonical body under a secret.
  pub sign : (secret timestamp nonce : Text) → Json → Text
  pub lower : Text → Text
  pub token_hash : Text → Text
  -- `str(value)[:128]`
  pub show : Json → Text

pub record Settings : Type 0 where
  -- The object of `source_hmac_secrets_json`, when it is set.
  pub source_hmac_secrets : Option (List (Text × Text))
  pub demo_mode : Bool
  pub source_demo_token : Option Text
  pub source_timestamp_tolerance_seconds : ℕ

-- The headers of the request.
pub record Credentials : Type 0 where
  pub source_id : Option Text
  pub token : Option Text
  pub timestamp : Option Text
  pub nonce : Option Text
  pub signature : Option Text

abbrev pub refusal : ErrorCode → ℕ → TraceqError
refusal = traceq_error

abbrev pub secret_in : Text → List (Text × Text) → Option Text
secret_in id [] = none
secret_in id ((k, secret) ∷ rest) = if k == id then some secret else secret_in id rest

abbrev pub secret_of : Text → Option (List (Text × Text)) → Option Text
secret_of id none = none
secret_of id (some secrets) = secret_in id secrets

-- `_hmac_secret`: the token of the demo mode stands in for a secret that is not set.
abbrev pub hmac_secret : Settings → Text → Option Text
hmac_secret settings id = elim (secret_of id settings.source_hmac_secrets) [
  | some secret ↦ some secret
  | none ↦ if settings.demo_mode then settings.source_demo_token else none
]

-- A text that is there and not empty.
abbrev pub present : Option Text → Option Text
present none = none
present (some t) = if t == 0 then none else some t

abbrev pub is_enabled : SourceStatus → Bool
is_enabled SourceStatus.active = true
is_enabled SourceStatus.inactive = false

-- `valid_from is not None and valid_from > now`
abbrev pub starts_later : Option ℕ → ℕ → Bool
starts_later none now = false
starts_later (some from) now = ltb now from

-- `valid_to is not None and valid_to <= now`
abbrev pub has_ended : Option ℕ → ℕ → Bool
has_ended none now = false
has_ended (some to) now = leb to now

abbrev pub is_valid : ℕ → EventSource → Bool
is_valid now source =
    source.enabled
    && (is_enabled source.status
        && (is_none source.revoked_at
            && (not (starts_later source.valid_from now) && not (has_ended source.valid_to now))))

abbrev pub get_source : Text → Tables → Option EventSource
get_source id db = find (λ s. s.source_id == id) db.sources

abbrev pub or_valid : ℕ → Option EventSource → Option EventSource
or_valid now none = none
or_valid now (some source) = if is_valid now source then some source else none

-- The tolerance in microseconds, on either side.
abbrev pub is_outside : Settings → ℕ → ℕ → Bool
is_outside settings now time =
    ltb (settings.source_timestamp_tolerance_seconds * 1000000) ((now - time) + (time - now))

abbrev pub is_used : Text → Text → Tables → Bool
is_used id nonce db = any (λ n. (n.source_id == id) && (n.nonce == nonce)) db.nonces

abbrev pub alert : AlertType → Option Text → Option Text → Tables → Tables
alert kind source_id target_id db = record db {
  alerts =
      db.alerts ++ record { alert_type = kind; source_id = source_id; target_id = target_id } ∷ [];
}

abbrev pub use_nonce : Text → Text → ℕ → Tables → Tables
use_nonce id nonce time db = record db {
  nonces = db.nonces ++ record { source_id = id; nonce = nonce; timestamp = time } ∷ [];
}

module _ (transport : Transport) (settings : Settings) (now : ℕ) where
  -- A nonce that is used is refused, with an alert; one that is not is spent for good.
  abbrev pub spend_nonce :
      (id timestamp nonce signature : Text) → ℕ → Json → Action Tables (Unit {0})
  spend_nonce id timestamp nonce signature time body = do
    secret ← or_raise (present (hmac_secret settings id)) (refusal ErrorCode.key_unavailable 503)
    raise_if (not (transport.sign secret timestamp nonce body == transport.lower signature))
        (refusal ErrorCode.source_auth_failed 401)
    modify (use_nonce id nonce time)
    commit

  abbrev pub check_hmac : (id timestamp nonce signature : Text) → Json → Action Tables (Unit {0})
  check_hmac id timestamp nonce signature body = do
    time ← or_raise (transport.parse_time timestamp) (refusal ErrorCode.source_auth_failed 401)
    raise_if (is_outside settings now time) (refusal ErrorCode.source_auth_failed 401)
    used ← gets (is_used id nonce)
    if used
        then (do
          modify (alert AlertType.replay_attempt (some id) none)
          commit
          raise (refusal ErrorCode.replay_attempt 409))
        else spend_nonce id timestamp nonce signature time body

  abbrev pub check_headers : Text → Credentials → Json → Action Tables (Unit {0})
  check_headers id c body = do
    timestamp ← or_raise (present c.timestamp) (refusal ErrorCode.source_auth_required 401)
    nonce ← or_raise (present c.nonce) (refusal ErrorCode.source_auth_required 401)
    signature ← or_raise (present c.signature) (refusal ErrorCode.source_auth_required 401)
    check_hmac id timestamp nonce signature body

  -- The shared secret of a source that does not sign.
  abbrev pub is_token : Option Text → Option Text → Bool
  is_token (some token) (some hash) =
      non_empty token && (non_empty hash && (hash == transport.token_hash token))
  is_token none hash = false
  is_token (some token) none = false

  abbrev pub check_method : EventSource → Text → Credentials → Json → Action Tables (Unit {0})
  check_method source id c body = elim source.auth_method [
    | AuthMethod.hmac_v1 ↦ check_headers id c body
    | AuthMethod.shared_secret_legacy ↦
        raise_if (not (is_token c.token source.token_hash))
          (refusal ErrorCode.invalid_source_credentials 401)
  ]

  unfoldable pub authenticate_source : Credentials → Json → Action Tables EventSource
  authenticate_source c body = do
    id ← or_raise (present c.source_id) (refusal ErrorCode.source_auth_required 401)
    found ← gets (get_source id)
    source ← or_raise (or_valid now found) (refusal ErrorCode.invalid_source_credentials 401)
    check_method source id c body
    pure source
