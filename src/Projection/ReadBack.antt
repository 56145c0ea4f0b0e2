-- ===== src/Projection/ReadBack.antt =====
-- backend/app/ingestion/service.py and backend/app/projections/rebuild.py together: what is stored
-- can be read.
use kosmohack_final.Ingestion.Store.{associated_data, stored_event}
use kosmohack_final.Security.Integrity.{Primitives}
use kosmohack_final.Events.{EventEnvelope}
use kosmohack_final.Models.Log.{IntegrityStreamState, Bytes}
use kosmohack_final.Ingestion.{AssociatedData, build_aad, Encoding}
use kosmohack_final.Projection.Replay.{decrypt}
use kosmohack_final.Prelude.{inr, arith, inl, Option-cases, ℕ, ◌≡◌, some}
use kosmohack_final.Projection.{Environment}

-- AES-GCM decrypts what it encrypted, under the same key and associated data.
abbrev pub DecryptsOwn : Encoding → Environment → Type 0
DecryptsOwn enc env =
    (plaintext : Bytes) (aad : AssociatedData)
    → env.decrypt_event (enc.encrypt_event plaintext aad).0 (enc.encrypt_event plaintext aad).1 aad
      ≡ some plaintext

-- The JSON reader reads what the writer of canonical JSON wrote for the event.
abbrev pub LoadsOwn : Encoding → Environment → EventEnvelope → Type 0
LoadsOwn enc env event = env.loads (enc.canonical_json event) ≡ some event

-- The event that ingestion stores, at any time and in any stream, is read back by the rebuild as it
-- was, as long as AES-GCM decrypts what it encrypted and the JSON of the event is read as it was
-- written.
pub stored_reads_back :
    (prims : Primitives) (enc : Encoding) (env : Environment) (received_at ingest_seq : ℕ)
    (event : EventEnvelope) (stream : IntegrityStreamState)
    → DecryptsOwn enc env
    → LoadsOwn enc env event
    → decrypt env (stored_event prims enc received_at ingest_seq event stream) ≡ some event
unfolding decrypt build_aad
stored_reads_back prims enc env received_at ingest_seq event stream decrypts loads =
    let aad = associated_data prims enc received_at event in
    elim (Option-cases (
      env.decrypt_event (enc.encrypt_event (enc.canonical_json event) aad).0
        (enc.encrypt_event (enc.canonical_json event) aad).1 aad)) [
          | inl fails ↦ absurd (ground (arith, decrypts (enc.canonical_json event) aad))
          | inr (plaintext, e) ↦ grind (arith, decrypts (enc.canonical_json event) aad, loads)
        ]
