-- ===== src/Ingestion/Starts.antt =====
-- What becomes of the events of an item that has no projection, backend/app/ingestion/service.py.
use mathlib.Core.Option.{some-injective}
use kosmohack_final.Events.{
  EventEnvelope, Payload, registered, started, finished, inspected, machine, action,
  device_invalidated,
}
use kosmohack_final.Ingestion.Chains.{invalidate-log}
use kosmohack_final.Ingestion.Store.{store_event, stored_event, append_event}
use kosmohack_final.Ingestion.Verified.{store_all}
use kosmohack_final.Ingestion.{get_event, stream_of, or_new_stream, get_stream, Encoding, Tables}
use kosmohack_final.Ingestion.Projections.{
  invalidate, touch_item, flush, inserted, loaded, ProjectionObject,
}
use kosmohack_final.Models.Log.{ProjectionState, ProjectionStatus, RawEvent}
use kosmohack_final.Security.Integrity.{Primitives}
use kosmohack_final.Session.{request}
use kosmohack_final.Prelude.{
  ℕ, Text, List, Option, Bool, [], ◌∷◌, ◌++◌, ◌==◌, ◌≡◌, true, false, none, some, find, select,
  update, opt_eq, non_empty, refl, arith, inl, inr, Option-cases, Bool-cases, max, is_some,
  find-append_none, find-key, ◌∙◌, ap, subst, sym,
}

-- No row of the item.
abbrev pub HasNone : Text → List ProjectionState → Type 0
HasNone item rows = find (λ p. p.item_id == item) rows ≡ none

abbrev pub events_of_item : Text → Tables → List RawEvent
events_of_item item db = select (λ raw. opt_eq raw.item_id (some item)) db.raw_events

update-HasNone :
    (item : Text) (p : ProjectionState → Bool) (f : ProjectionState → ProjectionState)
    (rows : List ProjectionState)
    → ((r : ProjectionState) → (f r).item_id ≡ r.item_id)
    → HasNone item rows
    → HasNone item (update p f rows)
update-HasNone item p f [] same h = refl
update-HasNone item p f (r ∷ rows) same h =
    ground (arith, same r, update-HasNone item p f rows same)

invalidate-HasNone :
    (item : Text) (event : EventEnvelope) (payload : Payload) (db : Tables)
    → HasNone item db.projections
    → HasNone item (invalidate event payload db).projections
invalidate-HasNone item event (registered _) db h = h
invalidate-HasNone item event (started _) db h = h
invalidate-HasNone item event (finished _) db h = h
invalidate-HasNone item event (inspected _) db h = h
invalidate-HasNone item event (machine _) db h = h
invalidate-HasNone item event (action _) db h = h
invalidate-HasNone item event (device_invalidated i) db h =
    update-HasNone item _ _ db.projections (λ r. refl) h

flush-HasNone :
    (item : Text) (o : ProjectionObject) (rows : List ProjectionState)
    → (o.item_id == item) ≡ false
    → HasNone item rows
    → HasNone item (flush o rows)
flush-HasNone item o rows other h =
    elim (Bool-cases (is_some (find (λ p. p.item_id == o.item_id) rows))) [
      | inl there ↦ rw there (update-HasNone item _ _ rows (λ r. refl) h)
      | inr new ↦ rw new (find-append_none _ rows (inserted o ∷ []) h ∙ ground arith)
    ]

-- A row that is there is of another item.
found-other :
    (item id : Text) (rows : List ProjectionState) (p : ProjectionState)
    → HasNone item rows
    → find (λ q. q.item_id == id) rows ≡ some p
    → (id == item) ≡ false
found-other item id rows p h known = elim (Bool-cases (id == item)) [
  | inl same ↦
      let e : id ≡ item = ground arith in
      let k = subst (λ i. find (λ q. q.item_id == i) rows ≡ some p) e known in absurd (ground arith)
  | inr other ↦ other
]

-- An event whose item could be touched is of another item.
touched-other :
    (item : Text) (seq : ℕ) (named : Option Text) (rows ps : List ProjectionState)
    → non_empty item ≡ true
    → HasNone item rows
    → touch_item seq named rows ≡ some ps
    → HasNone item ps × (opt_eq named (some item) ≡ false)
touched-other item seq none rows ps real h e = (subst (HasNone item) (ground arith) h, refl)
touched-other item seq (some id) rows ps real h e = elim (Bool-cases (id == 0)) [
  | inl empty ↦ (subst (HasNone item) (ground arith) h, ground arith)
  | inr full ↦ elim (Option-cases (find (λ p. p.item_id == id) rows)) [
    | inl unknown ↦ absurd (ground arith)
    | inr (p, known) ↦
        let o : ProjectionObject = record (loaded p) {
          latest_raw_ingest_seq = some (max p.latest_raw_ingest_seq seq);
          status = some ProjectionStatus.stale;
        } in
        let written : some (flush o rows) ≡ some ps = rw (full, known) at e in
        let its : p.item_id ≡ id = find-key (λ q. q.item_id) id rows p known in
        let other = found-other item id rows p h known in
        (
          subst (HasNone item) (some-injective (flush o rows) ps written)
              (flush-HasNone item o rows (ap (λ i. i == item) its ∙ other) h),
          other,
        )
  ]
]

select-append_other :
    (p : RawEvent → Bool) (xs : List RawEvent) (raw : RawEvent)
    → p raw ≡ false
    → select p (xs ++ raw ∷ []) ≡ select p xs
select-append_other p [] raw h = ground arith
select-append_other p (x ∷ xs) raw h = ground (arith, select-append_other p xs raw h)

module _ (prims : Primitives) (enc : Encoding) (item : Text) (real : non_empty item ≡ true) where
  -- One request leaves the item without a projection, and adds none of its events.
  store_event-keeps :
      (received_at ingest_seq : ℕ) (event : EventEnvelope) (db : Tables)
      → HasNone item db.projections
      → let db' = (request (store_event prims enc received_at ingest_seq event) db).1 in
        HasNone item db'.projections × (events_of_item item db' ≡ events_of_item item db)
  unfolding store_event
  store_event-keeps received_at ingest_seq event db h =
      elim (Option-cases (get_event event.event_id db)) [
        | inr (raw, found) ↦ (ground arith, ground arith)
        | inl new ↦ elim (Option-cases (touch_item ingest_seq event.item_id db.projections)) [
          | inl fails ↦ (ground arith, ground arith)
          | inr (ps, touched) ↦
              let (none_there, other) =
                touched-other item ingest_seq event.item_id db.projections ps real h touched in
              let id = stream_of event.source_id in
              let raw =
                stored_event prims enc received_at ingest_seq event
                  (or_new_stream id (get_stream id db)) in
              let db' = (request (store_event prims enc received_at ingest_seq event) db).1 in
              let rows : db'.projections ≡ (append_event prims enc raw event ps db).projections =
                ground arith in
              let log : db'.raw_events ≡ db.raw_events ++ raw ∷ [] =
                grind (arith, invalidate-log) in
              (
                subst (HasNone item) (sym rows)
                    (invalidate-HasNone item event event.payload _ none_there),
                ap (select (λ r. opt_eq r.item_id (some item))) log
                    ∙ select-append_other (λ r. opt_eq r.item_id (some item)) db.raw_events raw
                        other,
              )
        ]
      ]

  -- Ingestion takes in no event of an item that has no projection: after any number of requests the item
  -- has still none, and the raw log holds no more of its events than before.
  pub unknown_item_never_starts :
      (requests : List (ℕ × ℕ × EventEnvelope)) (db : Tables)
      → HasNone item db.projections
      → let db' = store_all prims enc requests db in
        HasNone item db'.projections × (events_of_item item db' ≡ events_of_item item db)
  unknown_item_never_starts [] db h = (h, refl)
  unknown_item_never_starts ((time, seq, event) ∷ rest) db h =
      let (none_yet, same) = store_event-keeps time seq event db h in
      let (none_then, same') =
        unknown_item_never_starts rest (request (store_event prims enc time seq event) db).1
          none_yet in
      (none_then, same' ∙ same)
