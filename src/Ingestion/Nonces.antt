-- ===== src/Ingestion/Nonces.antt =====
-- The nonces of signed requests, backend/app/ingestion/service.py.
use mathlib.Core.Bool.{false}
use kosmohack_final.Ingestion.Refusals.{
  checked_source, authentic, with_source, admitted_admit, bind_ok, admitted, ingested_only_allowed,
  Result-cases,
}
use kosmohack_final.Events.Schema.{Pydantic}
use kosmohack_final.Events.Validation.{Python}
use kosmohack_final.Ingestion.Ingest.{
  is_anomaly, ingest_event, count_sequence, save_sequence, warn_sequence,
}
use kosmohack_final.Events.Json.{Json}
use kosmohack_final.Session.{Result, err, TraceqError, request, fresh, ok, Session}
use kosmohack_final.Models.Log.{AuthMethod, EventSource}
use kosmohack_final.Security.Integrity.{Primitives}
use kosmohack_final.Ingestion.Sources.{
  authenticate_source, get_source, check_method, is_used, present, Credentials, Settings, Transport,
}
use kosmohack_final.Events.{
  action, machine, inspected, finished, started, registered, device_invalidated, Payload,
  EventEnvelope,
}
use kosmohack_final.Ingestion.Store.{store_event}
use kosmohack_final.Ingestion.{
  Bool, find, Option, get_event, IngestionResult, Text, EventSource, ℕ, Encoding, EventEnvelope,
  Tables,
}
use kosmohack_final.Ingestion.Projections.{touch_item, invalidate}
use kosmohack_final.Prelude.{
  find-map, if◌then◌else◌, Bool, sym, subst, any, none, ◌∙◌, find, Bool-cases, Option, ap, ==_refl,
  ◌&&◌, ◌==◌, any-append, refl, inl, true, arith, inr, Option-cases, Text, ℕ, ◌≡◌, some,
}

-- The sources and the nonces of two databases are the same.
abbrev SameSources : Tables → Tables → Type 0
SameSources db db' = (db'.sources ≡ db.sources) × (db'.nonces ≡ db.nonces)

invalidate-sources :
    (event : EventEnvelope) (p : Payload) (db : Tables) → SameSources db (invalidate event p db)
invalidate-sources event (device_invalidated _) db = (refl, refl)
invalidate-sources event (registered _) db = (refl, refl)
invalidate-sources event (started _) db = (refl, refl)
invalidate-sources event (finished _) db = (refl, refl)
invalidate-sources event (inspected _) db = (refl, refl)
invalidate-sources event (machine _) db = (refl, refl)
invalidate-sources event (action _) db = (refl, refl)

stored-sources :
    (prims : Primitives) (enc : Encoding) (now seq : ℕ) (event : EventEnvelope) (s : Session Tables)
    (r : IngestionResult)
    → (store_event prims enc now seq event s).0 ≡ ok r
    → SameSources s.current (store_event prims enc now seq event s).1.committed
unfolding store_event
stored-sources prims enc now seq event s r e =
    elim (Option-cases (get_event event.event_id s.current)) [
      | inr (raw, found) ↦ (ground (arith, found, e), ground (arith, found, e))
      | inl new ↦ elim (Option-cases (touch_item seq event.item_id s.current.projections)) [
        | inl fails ↦ absurd (ground (arith, new, e))
        | inr (ps, touched) ↦ (
          grind (arith, invalidate-sources, new, touched),
          grind (arith, invalidate-sources, new, touched),
        )
      ]
    ]

module _ (transport : Transport) (settings : Settings) where
  -- A signed request that passes has spent its nonce.
  passed_spends :
      (now : ℕ) (source : EventSource) (id nonce : Text) (c : Credentials) (value : Json)
      (db : Tables)
      → source.auth_method ≡ AuthMethod.hmac_v1
      → present c.nonce ≡ some nonce
      → (check_method transport settings now source id c value (fresh db)).0 ≡ ok tt
      → let s = (check_method transport settings now source id c value (fresh db)).1 in
        (s.current.sources ≡ db.sources) × (is_used id nonce s.current ≡ true)
  passed_spends now source id nonce c value db signs has e = (
    ground arith,
    grind (
      arith,
      any-append (λ n. (n.source_id == id) && (n.nonce == nonce)) db.nonces,
      ==_refl id,
      ==_refl nonce,
    ),
  )

  -- A nonce that is used does not pass again.
  used_refused :
      (now : ℕ) (source : EventSource) (id nonce : Text) (c : Credentials) (value : Json)
      (db : Tables)
      → source.auth_method ≡ AuthMethod.hmac_v1
      → present c.nonce ≡ some nonce
      → is_used id nonce db ≡ true
      → (check_method transport settings now source id c value (fresh db)).0 ≡ ok tt
      → ⊥
  used_refused now source id nonce c value db signs has used e = ground arith

warn-sources :
    (source : EventSource) (event : EventEnvelope) (db : Tables)
    → SameSources db (warn_sequence source event db)
warn-sources source event db =
    elim (Bool-cases (is_anomaly event.sequence source.last_source_sequence)) [
      | inl y ↦ (ground arith, ground arith)
      | inr n ↦ (ground arith, ground arith)
    ]

count_sequence-keeps :
    (n : Option ℕ) (s : EventSource)
    → ((count_sequence n s).source_id ≡ s.source_id)
      × ((count_sequence n s).auth_method ≡ s.auth_method)
count_sequence-keeps none s = (refl, refl)
count_sequence-keeps (some n) s = (refl, refl)

-- A source that signs is there, and has used the nonce.
abbrev pub HasUsed : Text → Text → Tables → Type 0
HasUsed id nonce db =
    ((s : EventSource) × (get_source id db ≡ some s) × (s.auth_method ≡ AuthMethod.hmac_v1))
    × (is_used id nonce db ≡ true)

saved-HasUsed :
    (id nonce : Text) (source : EventSource) (n : Option ℕ) (db : Tables)
    → HasUsed id nonce db
    → HasUsed id nonce (save_sequence source n db)
saved-HasUsed id nonce source n db ((s, there, signs), used) = (
  (
    (if s.source_id == source.source_id then count_sequence n s else s),
    find-map (λ x. x.source_id == id) (λ x. x.source_id == source.source_id) (count_sequence n)
        db.sources s (λ x. ap (λ k. k == id) (count_sequence-keeps n x).0) there,
    if-signs (s.source_id == source.source_id),
  ),
  used,
)
  where
    if-signs : (b : Bool) → (if b then count_sequence n s else s).auth_method ≡ AuthMethod.hmac_v1
    if-signs true = (count_sequence-keeps n s).1 ∙ signs
    if-signs false = signs

same-HasUsed :
    (id nonce : Text) (db db' : Tables)
    → SameSources db db'
    → HasUsed id nonce db
    → HasUsed id nonce db'
same-HasUsed id nonce db db' (sources, nonces) ((s, there, signs), used) = (
  (s, ap (find (λ x. x.source_id == id)) sources ∙ there, signs),
  ap (any (λ n. (n.source_id == id) && (n.nonce == nonce))) nonces ∙ used,
)

module _ (transport : Transport) (settings : Settings) (py : Python) (pydantic : Pydantic)
    (prims : Primitives) (enc : Encoding) where
  -- An event that a signing source gets in has spent its nonce.
  ingested_spends :
      (now seq : ℕ) (c : Credentials) (value : Json) (db : Tables) (r : IngestionResult)
      (id nonce : Text) (source : EventSource)
      → present c.source_id ≡ some id
      → get_source id db ≡ some source
      → source.auth_method ≡ AuthMethod.hmac_v1
      → present c.nonce ≡ some nonce
      → (request (ingest_event transport settings py pydantic prims enc now seq c value) db).0
        ≡ ok r
      → HasUsed id nonce
          (request (ingest_event transport settings py pydantic prims enc now seq c value) db).1
  unfolding ingest_event
  ingested_spends now seq c value db r id nonce source named there signs has e =
      let store = store_event prims enc now seq in
      let at_start = fresh db in
      let begun = admitted transport settings py pydantic prims enc now seq c value db in
      let (event, admits, goes_on) =
        bind_ok (λ s. admitted transport settings py pydantic prims enc now seq c value db) store
          at_start r e in
      let same =
        admitted_admit transport settings py pydantic prims enc now seq c value db event
          (ap (λ x. x.0) admits) in
      let (source', known, rest) =
        bind_ok (authenticate_source transport settings now c value)
          (with_source transport settings py pydantic prims enc now seq c value) at_start event
          (ap (λ x. x.0) (sym same ∙ admits)) in
      let t = (authenticate_source transport settings now c value at_start).1 in
      let (id', named', there', _, passed, session) =
        authentic transport settings py pydantic prims enc now seq c value db source'
          (ap (λ x. x.0) known) in
      let same_id : id' ≡ id = ground (arith, named, named') in
      let one : source' ≡ source = ground (arith, there, there', same_id) in
      let (sources, used) =
        passed_spends transport settings now source id nonce c value db signs has (
          subst (λ x. (check_method transport settings now source x c value at_start).0 ≡ ok tt)
            same_id
            (subst (λ x. (check_method transport settings now x id' c value at_start).0 ≡ ok tt) one
              passed)) in
      let (_, _, saved) =
        checked_source transport settings py pydantic prims enc now seq c value source' t event
          (ap (λ x. x.0) (sym rest) ∙ (ap (λ x. x.0) (sym same ∙ admits))) in
      let checked : Text → EventSource → Result (Unit {0}) × Session Tables =
        λ k x. check_method transport settings now x k c value at_start in
      let t_is : t ≡ (checked id source).1 =
        session ∙ (ap (λ x. (checked id' x).1) one ∙ ap (λ k. (checked k source).1) same_id) in
      let at_t : HasUsed id nonce t.current =
        subst (λ s. HasUsed id nonce s.current) (sym t_is)
          ((source, ap (find (λ x. x.source_id == id)) sources ∙ there, signs), used) in
      let at_save =
        saved-HasUsed id nonce source' event.sequence (warn_sequence source' event t.current) (
          same-HasUsed id nonce t.current (warn_sequence source' event t.current)
            (warn-sources source' event t.current) at_t) in
      let at_store : HasUsed id nonce begun.1.current =
        subst (λ s. HasUsed id nonce s.current) (sym (ap (λ x. x.1) (same ∙ rest) ∙ saved))
          at_save in
      subst (λ x. HasUsed id nonce x.1.committed) (sym goes_on)
        (same-HasUsed id nonce begun.1.current (store event begun.1).1.committed
          (stored-sources prims enc now seq event begun.1 r (ap (λ x. x.0) (sym goes_on) ∙ e))
          at_store)

  -- The nonce of a signed request that was let in is not accepted again from its source, at whatever time
  -- and with whatever else in the request.
  pub nonce_once :
      (now seq later next : ℕ) (c c' : Credentials) (value value' : Json) (db : Tables)
      (r : IngestionResult) (id nonce : Text) (source : EventSource)
      → present c.source_id ≡ some id
      → get_source id db ≡ some source
      → source.auth_method ≡ AuthMethod.hmac_v1
      → present c.nonce ≡ some nonce
      → (request (ingest_event transport settings py pydantic prims enc now seq c value) db).0
        ≡ ok r
      → present c'.source_id ≡ some id
      → present c'.nonce ≡ some nonce
      → let db' =
          (request (ingest_event transport settings py pydantic prims enc now seq c value) db).1 in
        (x : TraceqError) × ((request
            (ingest_event transport settings py pydantic prims enc later next c' value')
            db').0
          ≡ err x)
  nonce_once now seq later next c c' value value' db r id nonce source named there signs has e
        named' has' =
      let db' =
        (request (ingest_event transport settings py pydantic prims enc now seq c value) db).1 in
      let ((s, found, signing), used) =
        ingested_spends now seq c value db r id nonce source named there signs has e in
      elim (Result-cases
        (request (ingest_event transport settings py pydantic prims enc later next c' value')
          db').0) [
            | inr refused ↦ refused
            | inl (r', accepted) ↦
                let (k, t, _, named'', there'', _, passed, _, _) =
                  ingested_only_allowed transport settings py pydantic prims enc later next c'
                    value' db' r' accepted in
                let same_id : k ≡ id = ground (arith, named', named'') in
                let same : t ≡ s = ground (arith, found, there'', same_id) in
                absurd (
                  used_refused transport settings later t id nonce c' value' db'
                    (subst (λ x. x.auth_method ≡ AuthMethod.hmac_v1) (sym same) signing) has' used
                    (subst
                      (λ x.
                        (check_method transport settings later t x c' value' (fresh db')).0 ≡ ok tt)
                      same_id passed))
          ]
