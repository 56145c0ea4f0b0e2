-- ===== src/Security/Integrity.antt =====
-- The check of the raw log, backend/app/security/integrity.py, with `integrity_metadata` and
-- `compute_integrity_mac` of backend/app/security/crypto.py. HMAC-SHA256, the JSON writer and the
-- UTF-8 encoder are not this program's code: they are the functions of `Primitives`. Severity and
-- details of an alert are not modelled.
pub mod Chain
pub mod Alerts
use kosmohack_final.Security.Framing.{framed}
use kosmohack_final.Models.Log.{
  StreamStatus, AlertType, EventType, IntegrityStreamState, SecurityAlert, RawEvent, Bytes,
}
use kosmohack_final.Prelude.{
  some, none, ◌&&◌, opt_eq, false, suc, any, update, true, leb, not, ◌==◌, cons_if, if◌then◌else◌,
  ◌++◌, [], Bool, map, ◌∷◌, select, List, ℕ, Text,
}

-- What `integrity_metadata` puts into JSON.
pub record Metadata : Type 0 where
  pub event_id : Text
  pub event_type : EventType
  pub integrity_seq : ℕ
  pub integrity_stream_id : Text
  pub occurred_at : ℕ
  pub received_at : ℕ
  pub schema_version : Text
  pub source_id : Text

pub record Primitives : Type 0 where
  pub hmac_sha256 : Bytes → Bytes → Bytes
  pub json_bytes : Metadata → Bytes
  pub utf8 : Text → Bytes
  pub integrity_key : Bytes

pub data Reason : Type 0 where
  sequence_gap previous_mac_mismatch mac_mismatch : Reason

pub record IntegrityFailure : Type 0 where
  pub stream_id : Text
  pub event_id : Text
  pub sequence : ℕ
  pub reason : Reason

pub record Tables : Type 0 where
  pub raw_events : List RawEvent
  pub stream_states : List IntegrityStreamState
  pub security_alerts : List SecurityAlert

abbrev pub integrity_metadata : RawEvent → Metadata
integrity_metadata e = record {
  event_id = e.event_id;
  event_type = e.event_type;
  integrity_seq = e.integrity_seq;
  integrity_stream_id = e.integrity_stream_id;
  occurred_at = e.occurred_at;
  received_at = e.received_at;
  schema_version = e.schema_version;
  source_id = e.source_id;
}

-- `hmac.compare_digest`
abbrev pub compare_digest : Bytes → Bytes → Bool
compare_digest [] [] = true
compare_digest [] (y ∷ ys) = false
compare_digest (x ∷ xs) [] = false
compare_digest (x ∷ xs) (y ∷ ys) = (x == y) && compare_digest xs ys

-- `order_by`: a stable sort by insertion.
abbrev pub insert_by : {A : Type 0} → (A → ℕ) → A → List A → List A
insert_by key x [] = x ∷ []
insert_by key x (y ∷ ys) =
    let rest = insert_by key x ys in if leb (key x) (key y) then x ∷ y ∷ ys else y ∷ rest

abbrev pub order_by : {A : Type 0} → (A → ℕ) → List A → List A
order_by key [] = []
order_by key (x ∷ xs) = insert_by key x (order_by key xs)

abbrev pub events_of : Text → List RawEvent → List RawEvent
events_of stream_id events =
    order_by (λ e. e.integrity_seq) (select (λ e. e.integrity_stream_id == stream_id) events)

module _ (prims : Primitives) where
  unfoldable pub compute_integrity_mac : RawEvent → Bytes
  compute_integrity_mac e = prims.hmac_sha256 prims.integrity_key (
      framed e.prev_integrity_mac (prims.json_bytes (integrity_metadata e)) e.payload_ciphertext
        e.nonce (prims.utf8 e.crypto_key_id))

  abbrev pub failure : Text → RawEvent → Reason → IntegrityFailure
  failure stream_id e reason = record {
    stream_id = stream_id;
    event_id = e.event_id;
    sequence = e.integrity_seq;
    reason = reason;
  }

  -- The loop over the events of one stream.
  abbrev pub check_events : Text → ℕ → Bytes → List RawEvent → List IntegrityFailure
  check_events stream_id expected_seq previous [] = []
  check_events stream_id expected_seq previous (e ∷ es) =
      cons_if (not (e.integrity_seq == expected_seq)) (failure stream_id e Reason.sequence_gap) (
        cons_if (not (compare_digest e.prev_integrity_mac previous))
          (failure stream_id e Reason.previous_mac_mismatch)
          (cons_if (not (compare_digest (compute_integrity_mac e) e.integrity_mac))
            (failure stream_id e Reason.mac_mismatch)
            (check_events stream_id (suc expected_seq) e.integrity_mac es)))

  abbrev pub with_status : List IntegrityFailure → IntegrityStreamState → IntegrityStreamState
  with_status failures state = record state {
    status =
        if any (λ f. f.stream_id == state.stream_id) failures
        then StreamStatus.integrity_failed
        else StreamStatus.stream_ok;
  }

  -- The loop over the streams, with the failures found before.
  abbrev pub check_streams :
      List Text → List IntegrityFailure → Tables → List IntegrityFailure × Tables
  check_streams [] failures db = (failures, db)
  check_streams (id ∷ ids) failures db =
      let found = failures ++ check_events id 1 [] (events_of id db.raw_events) in
      check_streams ids found (record db {
        stream_states = update (λ r. r.stream_id == id) (with_status found) db.stream_states;
      })

  abbrev pub is_raised : IntegrityFailure → SecurityAlert → Bool
  is_raised f alert = elim alert.alert_type [
    | AlertType.raw_log_integrity_failed ↦ opt_eq alert.target_id (some f.event_id)
    | _ ↦ false
  ]

  abbrev pub failure_alert : IntegrityFailure → SecurityAlert
  failure_alert f = record {
    alert_type = AlertType.raw_log_integrity_failed;
    source_id = none;
    target_id = some f.event_id;
  }

  -- An alert for each failure whose event has none in the table; the session does not flush the
  -- alerts that the loop adds, so the queries do not see them.
  abbrev pub new_alerts : List SecurityAlert → List IntegrityFailure → List SecurityAlert
  new_alerts alerts [] = []
  new_alerts alerts (f ∷ fs) =
      cons_if (not (any (is_raised f) alerts)) (failure_alert f) (new_alerts alerts fs)

  unfoldable pub verify_integrity : Tables → List IntegrityFailure × Tables
  verify_integrity db =
      let ids = order_by (λ id. id) (map (λ s. s.stream_id) db.stream_states) in
      let (failures, db') = check_streams ids [] db in
      (
        failures,
        record db' {
          security_alerts = db'.security_alerts ++ new_alerts db'.security_alerts failures;
        },
      )
