-- ===== src/Ingestion/Chains.antt =====
-- The streams of the raw log under backend/app/ingestion/service.py.
use kosmohack_final.Events.{
  EventEnvelope, Payload, registered, started, finished, inspected, machine, action,
  device_invalidated,
}
use kosmohack_final.Session.{request}
use kosmohack_final.Ingestion.Store.{advance_stream, stored_event, write_stream, store_event}
use kosmohack_final.Security.Integrity.{compute_integrity_mac, Primitives}
use kosmohack_final.Models.Log.{IntegrityStreamState, RawEvent, Bytes}
use kosmohack_final.Ingestion.{
  new_stream, get_event, or_new_stream, stream_of, Encoding, get_stream, Tables,
}
use kosmohack_final.Ingestion.Projections.{touch_item, invalidate}
use kosmohack_final.Security.Integrity.Chain.{IsChain, last_mac}
use kosmohack_final.Prelude.{
  some, none, append_nil_right, ==→eq, select-append, Bool-cases, length-append, ==_refl, ◌∙◌,
  find-append_none, subst, sym, find-update_ne, find-update, suc, inr, arith, ◌⊎◌, inl,
  Option-cases, length, ◌∷◌, ◌==◌, ◌+◌, find, [], select, ◌++◌, ◌≢◌, refl, Option, ℕ, List, ◌≡◌,
  Text, none,
}

-- The events of a stream, in the order in which they were stored, form a chain that ends where its
-- state says; without a state there are none.
abbrev pub LinkedAt : Primitives → Option IntegrityStreamState → List RawEvent → Type 0
LinkedAt prims none es = es ≡ []
LinkedAt prims (some s) es =
    IsChain prims 1 [] es × (last_mac [] es ≡ s.last_mac) × (length es ≡ s.last_seq)

abbrev pub of_stream : Text → List RawEvent → List RawEvent
of_stream id events = select (λ e. e.integrity_stream_id == id) events

abbrev pub IsLinked : Primitives → Tables → Type 0
IsLinked prims db = (id : Text) → LinkedAt prims (get_stream id db) (of_stream id db.raw_events)

last_mac-append :
    (p : Bytes) (es : List RawEvent) (e : RawEvent) → last_mac p (es ++ e ∷ []) ≡ e.integrity_mac
last_mac-append p [] e = refl
last_mac-append p (x ∷ es) e = last_mac-append x.integrity_mac es e

append-IsChain :
    (prims : Primitives) (n : ℕ) (p : Bytes) (es : List RawEvent) (e : RawEvent)
    → IsChain prims n p es
    → e.integrity_seq ≡ n + length es
    → e.prev_integrity_mac ≡ last_mac p es
    → compute_integrity_mac prims e ≡ e.integrity_mac
    → IsChain prims n p (es ++ e ∷ [])
append-IsChain prims n p [] e c seq prev mac = (omega (arith, seq), prev, mac, tt)
append-IsChain prims n p (x ∷ es) e c seq prev mac = (
  c.0,
  c.1,
  c.2,
  append-IsChain prims (suc n) x.integrity_mac es e c.3 (omega (arith, seq)) prev mac,
)

pub invalidate-log :
    (event : EventEnvelope) (p : Payload) (db : Tables)
    → ((invalidate event p db).raw_events ≡ db.raw_events)
      × ((invalidate event p db).streams ≡ db.streams)
invalidate-log event (device_invalidated i) db = (refl, refl)
invalidate-log event (registered _) db = (refl, refl)
invalidate-log event (started _) db = (refl, refl)
invalidate-log event (finished _) db = (refl, refl)
invalidate-log event (inspected _) db = (refl, refl)
invalidate-log event (machine _) db = (refl, refl)
invalidate-log event (action _) db = (refl, refl)

find-append_other :
    (id k : ℕ) (rows : List IntegrityStreamState)
    → id ≢ k
    → find (λ s. s.stream_id == id) (rows ++ new_stream k ∷ []) ≡ find (λ s. s.stream_id == id) rows
find-append_other id k [] ne = ground arith
find-append_other id k (x ∷ rows) ne = ground (arith, find-append_other id k rows ne)

module _ (prims : Primitives) (enc : Encoding) where
  append-LinkedAt :
      (id : Text) (raw : RawEvent) (o : Option IntegrityStreamState) (es : List RawEvent)
      → LinkedAt prims o es
      → raw.integrity_seq ≡ suc (or_new_stream id o).last_seq
      → raw.prev_integrity_mac ≡ (or_new_stream id o).last_mac
      → compute_integrity_mac prims raw ≡ raw.integrity_mac
      → LinkedAt prims (some (advance_stream prims enc raw (or_new_stream id o))) (es ++ raw ∷ [])
  append-LinkedAt id raw none es h seq prev mac =
      subst
        (λ xs.
          LinkedAt prims (some (advance_stream prims enc raw (new_stream id))) (xs ++ raw ∷ []))
        (sym h) ((seq, prev, mac, tt), refl, sym seq)
  append-LinkedAt id raw (some s) es h seq prev mac = (
    append-IsChain prims 1 [] es raw h.0 (omega (arith, seq, h.2)) (prev ∙ sym h.1) mac,
    last_mac-append [] es raw,
    omega (arith, length-append es (raw ∷ []), seq, h.2),
  )

  store-effect :
      (received_at ingest_seq : ℕ) (event : EventEnvelope) (db : Tables)
      → let db' = (request (store_event prims enc received_at ingest_seq event) db).1 in
        let id = stream_of event.source_id in
        let raw =
          stored_event prims enc received_at ingest_seq event
            (or_new_stream id (get_stream id db)) in
        ((db'.raw_events ≡ db.raw_events) × (db'.streams ≡ db.streams))
        ⊎ ((db'.raw_events ≡ db.raw_events ++ raw ∷ [])
            × (db'.streams ≡ write_stream prims enc id raw db.streams))
  unfolding store_event
  store-effect received_at ingest_seq event db = elim (Option-cases (get_event event.event_id db)) [
    | inr (e, found) ↦ inl (ground arith, ground arith)
    | inl new ↦ elim (Option-cases (touch_item ingest_seq event.item_id db.projections)) [
      | inl fails ↦ inl (ground arith, ground arith)
      | inr (ps, touched) ↦ inr (grind (arith, invalidate-log), grind (arith, invalidate-log))
    ]
  ]

  -- The written stream is there, and counts the event.
  find-write_stream :
      (id : ℕ) (raw : RawEvent) (rows : List IntegrityStreamState)
      → find (λ s. s.stream_id == id) (write_stream prims enc id raw rows)
        ≡ some
            (advance_stream prims enc raw (or_new_stream id (find (λ s. s.stream_id == id) rows)))
  find-write_stream id raw rows = elim (Option-cases (find (λ s. s.stream_id == id) rows)) [
    | inl n ↦
        let base : find (λ s. s.stream_id == id) (rows ++ new_stream id ∷ [])
            ≡ some (new_stream id) =
          find-append_none (λ s. s.stream_id == id) rows (new_stream id ∷ []) n
          ∙ ground (arith, ==_refl id) in
        ground (
          arith,
          find-update (λ s. s.stream_id) (advance_stream prims enc raw) id id
              (rows ++ new_stream id ∷ []) (new_stream id) (λ x h. h) refl base,
        )
    | inr (s, y) ↦ ground (
      arith,
      find-update (λ s. s.stream_id) (advance_stream prims enc raw) id id rows s (λ x h. h) refl y,
    )
  ]

  find-write_stream_ne :
      (id k : ℕ) (raw : RawEvent) (rows : List IntegrityStreamState)
      → id ≢ k
      → find (λ s. s.stream_id == id) (write_stream prims enc k raw rows)
        ≡ find (λ s. s.stream_id == id) rows
  find-write_stream_ne id k raw rows ne = elim (Option-cases (find (λ s. s.stream_id == k) rows)) [
    | inl n ↦ ground (
      arith,
      find-update_ne (λ s. s.stream_id) (advance_stream prims enc raw) id k
          (rows ++ new_stream k ∷ []) (λ x h. h) ne,
      find-append_other id k rows ne,
    )
    | inr (s, y) ↦ ground (
      arith,
      find-update_ne (λ s. s.stream_id) (advance_stream prims enc raw) id k rows (λ x h. h) ne,
    )
  ]

  relink :
      (ss ss' : List IntegrityStreamState) (es es' : List RawEvent)
      → ss ≡ ss'
      → es ≡ es'
      → (id : Text) → LinkedAt prims (find (λ s. s.stream_id == id) ss) (of_stream id es)
      → LinkedAt prims (find (λ s. s.stream_id == id) ss') (of_stream id es')
  relink ss ss' es es' s e id h = rw (← s, ← e) h

  -- An event that links to its stream, written with it, keeps each stream linked.
  linked_after :
      (raw : RawEvent) (own id : Text) (ss : List IntegrityStreamState) (es : List RawEvent)
      → ((k : Text) → LinkedAt prims (find (λ s. s.stream_id == k) ss) (of_stream k es))
      → raw.integrity_stream_id ≡ own
      → raw.integrity_seq ≡ suc (or_new_stream own (find (λ s. s.stream_id == own) ss)).last_seq
      → raw.prev_integrity_mac ≡ (or_new_stream own (find (λ s. s.stream_id == own) ss)).last_mac
      → compute_integrity_mac prims raw ≡ raw.integrity_mac
      → LinkedAt prims
          (find (λ s. s.stream_id == id) (write_stream prims enc own raw ss))
          (of_stream id (es ++ raw ∷ []))
  linked_after raw own id ss es h mine seq prev mac = elim (Bool-cases (id == own)) [
    | inl e ↦
        let at_own : LinkedAt prims
            (find (λ s. s.stream_id == own) (write_stream prims enc own raw ss))
            (of_stream own (es ++ raw ∷ [])) =
          let added : of_stream own (es ++ raw ∷ []) ≡ of_stream own es ++ raw ∷ [] =
            select-append (λ x. x.integrity_stream_id == own) es (raw ∷ [])
            ∙ ground (arith, mine, ==_refl own) in
          rw (find-write_stream own raw ss, added)
            (append-LinkedAt own raw _ (of_stream own es) (h own) seq prev mac) in
        subst
          (λ k.
            LinkedAt prims (find (λ s. s.stream_id == k) (write_stream prims enc own raw ss))
              (of_stream k (es ++ raw ∷ [])))
          (sym (==→eq id own e)) at_own
    | inr e ↦
        let ne : id ≢ own = λ q. absurd (ground arith) in
        let kept : of_stream id (es ++ raw ∷ []) ≡ of_stream id es =
          select-append (λ x. x.integrity_stream_id == id) es (raw ∷ [])
          ∙ ground (arith, mine, append_nil_right (of_stream id es)) in
        rw (find-write_stream_ne id own raw ss ne, kept) (h id)
  ]

  -- Storing an event, whether it is accepted, repeated or refused, keeps every stream of the raw log
  -- linked: its events form a chain of MACs from number 1 that ends where the state of the stream says.
  pub store_event-IsLinked :
      (received_at ingest_seq : ℕ) (event : EventEnvelope) (db : Tables)
      → IsLinked prims db
      → IsLinked prims (request (store_event prims enc received_at ingest_seq event) db).1
  unfolding compute_integrity_mac
  store_event-IsLinked received_at ingest_seq event db h id =
      elim (store-effect received_at ingest_seq event db) [
        | inl (events, streams) ↦
            relink db.streams _ db.raw_events _ (sym streams) (sym events) id (h id)
        | inr (events, streams) ↦ relink _ _ _ _ (sym streams) (sym events) id (
            linked_after _ (stream_of event.source_id) id db.streams db.raw_events h refl refl refl
              refl)
      ]
