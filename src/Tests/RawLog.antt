-- ===== src/Tests/RawLog.antt =====
-- backend/app/security/integrity.py on a stream of two events. The concrete MAC is the message
-- itself, and each text is its own encoding.
use kosmohack_final.Security.Integrity.Alerts.{verify_integrity_iff, failures_alerted}
use kosmohack_final.Security.Integrity.Chain.{Fits, IsChain, tamper_evident, signed_content}
use kosmohack_final.Models.Log.{StreamStatus, EventType, Bytes, RawEvent}
use kosmohack_final.Security.Framing.{to_bytes, field, framed}
use kosmohack_final.Prelude.{
  refl, arith, ◌^◌, ◌<◌, some, none, true, ◌↔◌, [], ◌+◌, any, List, ◌∷◌, ◌≡◌, map, ℕ, All,
}
use kosmohack_final.Security.Integrity.{
  events_of, is_raised, Tables, Primitives, compute_integrity_mac, verify_integrity,
}

abbrev one : Bytes
one = 1 ∷ []

abbrev two : Bytes
two = 2 ∷ 3 ∷ []

-- The MAC before the first event.
abbrev start : Bytes
start = []

abbrev prims : Primitives
prims = record {
  hmac_sha256 = λ key message. message;
  json_bytes = λ m. m.event_id ∷ m.integrity_seq ∷ [];
  utf8 = λ text. text ∷ [];
  integrity_key = 1 ∷ [];
}

-- An event of stream 6, received in the place `ingest_seq` of the log.
abbrev unsigned : (ingest_seq seq : ℕ) → Bytes → RawEvent
unsigned ingest_seq seq previous = record {
  event_id = 80 + seq;
  event_type = EventType.inspection_result;
  schema_version = 1;
  source_id = 1;
  source_type = 1;
  source_sequence = none;
  item_id = some 1;
  operation_run_id = none;
  occurred_at = 80;
  received_at = 81;
  ingest_seq = ingest_seq;
  payload_ciphertext = 9 ∷ 9 ∷ [];
  nonce = 5 ∷ [];
  content_hash = 1;
  integrity_stream_id = 6;
  integrity_seq = seq;
  prev_integrity_mac = previous;
  integrity_mac = [];
  crypto_key_id = 1;
  key_version = 1;
  crypto_profile_id = 1;
}

abbrev first : ℕ → RawEvent
first place =
    let e = unsigned place 1 start in record e { integrity_mac = compute_integrity_mac prims e }

abbrev second : ℕ → RawEvent
second place =
    let e = unsigned place 2 (first place).integrity_mac in
    record e { integrity_mac = compute_integrity_mac prims e }

-- The stream, stored in two ways that differ in what is not signed.
abbrev stream : ℕ → List RawEvent
stream place = first place ∷ second (place + 1) ∷ []

abbrev log : Tables
log = record {
  raw_events = second 2 ∷ first 1 ∷ [];
  stream_states =
      record { stream_id = 6; last_seq = 2; last_mac = []; status = StreamStatus.stream_ok } ∷ [];
  security_alerts = [];
}

verify_integrity_iff_example :
    ((verify_integrity prims log).0 ≡ [])
    ↔ All (λ s. IsChain prims 1 [] (events_of s.stream_id log.raw_events)) log.stream_states
verify_integrity_iff_example = verify_integrity_iff prims log

-- The first event is lost.
abbrev gap : Tables
gap = record log { raw_events = second 2 ∷ [] }

failures_alerted_example :
    All
      (λ f. any (is_raised prims f) (verify_integrity prims gap).1.security_alerts ≡ true)
      (verify_integrity prims gap).0
failures_alerted_example = failures_alerted prims gap

short :
    {a b c d : ℕ}
    → a < 50
    → b < 50
    → c < 50
    → d < 50
    → (a < 256 ^ 4) × (b < 256 ^ 4) × (c < 256 ^ 8) × (d < 256 ^ 4)
short ha hb hc hd = (omega arith, omega arith, omega arith, omega arith)

first-Fits : (place : ℕ) → Fits prims (first place)
first-Fits place = short (omega arith) (omega arith) (omega arith) (omega arith)

second-Fits : (place : ℕ) → Fits prims (second place)
unfolding compute_integrity_mac framed field to_bytes
second-Fits place = short (omega arith) (omega arith) (omega arith) (omega arith)

tamper_evident_example :
    (map (signed_content prims) (stream 1) ≡ map (signed_content prims) (stream 5))
    × (start ≡ start)
unfolding compute_integrity_mac framed
tamper_evident_example =
    tamper_evident prims 1 start start (stream 1) (stream 5) (λ m m' h. h)
      (first-Fits 1, (second-Fits 2, tt)) (first-Fits 5, (second-Fits 6, tt)) refl
      (refl, refl, refl, (refl, refl, refl, tt)) (refl, refl, refl, (refl, refl, refl, tt)) refl
