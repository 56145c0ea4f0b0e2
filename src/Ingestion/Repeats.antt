-- ===== src/Ingestion/Repeats.antt =====
-- What backend/app/ingestion/service.py does with an event whose identity is known.
use kosmohack_final.Events.{EventEnvelope}
use kosmohack_final.Ingestion.Chains.{invalidate-log}
use kosmohack_final.Session.{ok, request}
use kosmohack_final.Models.Log.{RawEvent}
use kosmohack_final.Prelude.{
  some, refl, ==_refl, [], ◌∷◌, find-append_none, inl, inr, arith, ◌==◌, Option-cases, some, ◌≡◌, ℕ,
}
use kosmohack_final.Ingestion.Store.{stored_event, content_hash, store_event}
use kosmohack_final.Ingestion.{
  get_stream, stream_of, or_new_stream, duplicate_result, get_event, IngestionResult, Tables,
  Encoding,
}
use kosmohack_final.Ingestion.Projections.{touch_item}
use kosmohack_final.Security.Integrity.{Primitives}

module _ (prims : Primitives) (enc : Encoding) where
  -- What is known of the stored event once the event has been taken in.
  stored_hash :
      (received_at ingest_seq : ℕ) (event : EventEnvelope) (db : Tables) (r : IngestionResult)
      → (request (store_event prims enc received_at ingest_seq event) db).0 ≡ ok r
      → (raw : RawEvent) × (get_event event.event_id
            (request (store_event prims enc received_at ingest_seq event) db).1
          ≡ some raw)
        × (raw.content_hash ≡ content_hash prims enc event)
  unfolding store_event
  stored_hash received_at ingest_seq event db r e =
      elim (Option-cases (get_event event.event_id db)) [
        | inr (raw, found) ↦ (raw, ground arith, ground arith)
        | inl new ↦ elim (Option-cases (touch_item ingest_seq event.item_id db.projections)) [
          | inl fails ↦ absurd (ground arith)
          | inr (ps, touched) ↦
              let raw = stored_event prims enc received_at ingest_seq event (
                or_new_stream (stream_of event.source_id)
                  (get_stream (stream_of event.source_id) db)) in
              (
                raw,
                grind (
                  arith,
                  invalidate-log,
                  find-append_none (λ x. x.event_id == event.event_id) db.raw_events (raw ∷ []) new,
                  ==_refl event.event_id,
                ),
                refl,
              )
        ]
      ]

  repeat-same :
      (received_at ingest_seq : ℕ) (event : EventEnvelope) (db : Tables) (raw : RawEvent)
      → get_event event.event_id db ≡ some raw
      → raw.content_hash ≡ content_hash prims enc event
      → let (r, db') = request (store_event prims enc received_at ingest_seq event) db in
        (r ≡ ok (duplicate_result event (content_hash prims enc event)))
        × (db'.raw_events ≡ db.raw_events)
        × (db'.streams ≡ db.streams)
        × (db'.projections ≡ db.projections)
  unfolding store_event
  repeat-same received_at ingest_seq event db raw found same =
      (ground arith, ground arith, ground arith, ground arith)

  -- An event that was taken in can be sent again at any time: the answer is that it is a duplicate, and
  -- the raw log, its streams and the projections stay as they are.
  pub store_again :
      (received_at ingest_seq later next : ℕ) (event : EventEnvelope) (db : Tables)
      (r : IngestionResult)
      → (request (store_event prims enc received_at ingest_seq event) db).0 ≡ ok r
      → let db' = (request (store_event prims enc received_at ingest_seq event) db).1 in
        let (r'', db'') = request (store_event prims enc later next event) db' in
        (r'' ≡ ok (duplicate_result event (content_hash prims enc event)))
        × (db''.raw_events ≡ db'.raw_events)
        × (db''.streams ≡ db'.streams)
        × (db''.projections ≡ db'.projections)
  store_again received_at ingest_seq later next event db r e =
      let (raw, found, same) = stored_hash received_at ingest_seq event db r e in
      repeat-same later next event _ raw found same
