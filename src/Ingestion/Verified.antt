-- ===== src/Ingestion/Verified.antt =====
-- backend/app/ingestion/service.py and backend/app/security/integrity.py together: what is stored
-- passes the check.
use kosmohack_final.Events.{EventEnvelope}
use kosmohack_final.Ingestion.Store.{store_event}
use kosmohack_final.Session.{request}
use kosmohack_final.Security.Integrity.Alerts.{verify_integrity_iff}
use kosmohack_final.Security.Integrity.Chain.{IsChain}
use kosmohack_final.Ingestion.Chains.{store_event-IsLinked, of_stream, LinkedAt, IsLinked}
use kosmohack_final.Models.Log.{RawEvent, IntegrityStreamState, Bytes}
use kosmohack_final.Security.Integrity.{
  events_of, insert_by, order_by, verify_integrity, Primitives,
}
use kosmohack_final.Ingestion.{get_stream, Encoding, Tables}
use kosmohack_final.Security.Integrity
use kosmohack_final.Prelude.{
  some, none, refl, arith, true, leb, suc, sym, ◌∷◌, subst, [], ◌<◌, ◌≡◌, All, List, Option, ℕ,
  none,
}

insert_by-first :
    (prims : Primitives) (n : ℕ) (p : Bytes) (e : RawEvent) (es : List RawEvent)
    → IsChain prims n p es
    → e.integrity_seq < n
    → insert_by (λ x. x.integrity_seq) e es ≡ e ∷ es
insert_by-first prims n p e [] c h = refl
insert_by-first prims n p e (x ∷ es) c h =
    let first : leb e.integrity_seq x.integrity_seq ≡ true = ground (arith, c.0) in rw first refl

-- A chain is in the order of its numbers.
order_by-IsChain :
    (prims : Primitives) (n : ℕ) (p : Bytes) (es : List RawEvent)
    → IsChain prims n p es
    → order_by (λ x. x.integrity_seq) es ≡ es
order_by-IsChain prims n p [] c = refl
order_by-IsChain prims n p (e ∷ es) c =
    rw (order_by-IsChain prims (suc n) e.integrity_mac es c.3)
      (insert_by-first prims (suc n) e.integrity_mac e es c.3 (omega (arith, c.0)))

LinkedAt-IsChain :
    (prims : Primitives) (o : Option IntegrityStreamState) (es : List RawEvent)
    → LinkedAt prims o es
    → IsChain prims 1 [] es
LinkedAt-IsChain prims none es h = subst (IsChain prims 1 []) (sym h) tt
LinkedAt-IsChain prims (some s) es h = h.0

IsLinked-IsChain :
    (prims : Primitives) (db : Tables) (states : List IntegrityStreamState)
    → IsLinked prims db
    → All (λ s. IsChain prims 1 [] (events_of s.stream_id db.raw_events)) states
IsLinked-IsChain prims db [] h = tt
IsLinked-IsChain prims db (s ∷ states) h =
    let c =
      LinkedAt-IsChain prims (get_stream s.stream_id db) (of_stream s.stream_id db.raw_events)
        (h s.stream_id) in
    (
      subst (IsChain prims 1 []) (sym (order_by-IsChain prims 1 [] _ c)) c,
      IsLinked-IsChain prims db states h,
    )

-- What the check of the raw log reads.
abbrev pub checked : Tables → Integrity.Tables
checked db = record {
  raw_events = db.raw_events;
  stream_states = db.streams;
  security_alerts = db.alerts;
}

-- Requests one after the other: each with its time, its ingest number and its event.
abbrev pub store_all : Primitives → Encoding → List (ℕ × ℕ × EventEnvelope) → Tables → Tables
store_all prims enc [] db = db
store_all prims enc ((time, seq, event) ∷ rest) db =
    store_all prims enc rest (request (store_event prims enc time seq event) db).1

store_all-IsLinked :
    (prims : Primitives) (enc : Encoding) (requests : List (ℕ × ℕ × EventEnvelope)) (db : Tables)
    → IsLinked prims db
    → IsLinked prims (store_all prims enc requests db)
store_all-IsLinked prims enc [] db h = h
store_all-IsLinked prims enc ((time, seq, event) ∷ rest) db h =
    store_all-IsLinked prims enc rest (request (store_event prims enc time seq event) db).1
      (store_event-IsLinked prims enc time seq event db h)

-- Whatever is stored, in any number of requests from a log whose streams are linked, the check of the
-- raw log reports no failure.
pub stored_verifies :
    (prims : Primitives) (enc : Encoding) (requests : List (ℕ × ℕ × EventEnvelope)) (db : Tables)
    → IsLinked prims db
    → (verify_integrity prims (checked (store_all prims enc requests db))).0 ≡ []
stored_verifies prims enc requests db h =
    let db' = store_all prims enc requests db in
    (verify_integrity_iff prims (checked db')).1
      (IsLinked-IsChain prims db' db'.streams (store_all-IsLinked prims enc requests db h))
