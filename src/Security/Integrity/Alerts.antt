-- ===== src/Security/Integrity/Alerts.antt =====
-- The whole check of backend/app/security/integrity.py: the report over all streams, and the alerts.
use mathlib.Core.Bool.{true, false}
use kosmohack_final.Security.Integrity.Chain.{IsChain→check_events, check_events→IsChain, IsChain}
use kosmohack_final.Models.Log.{SecurityAlert, RawEvent, IntegrityStreamState}
use kosmohack_final.Security.Integrity.{
  failure_alert, new_alerts, events_of, order_by, check_events, is_raised, insert_by, check_streams,
  Tables, IntegrityStreamState, IntegrityFailure, RawEvent, verify_integrity, Primitives,
}
use kosmohack_final.Prelude.{
  append_nil_right, not, subst, cons_if, ◌||◌, All-map, Bool, ==_refl, any-append, inr, inl, leb,
  ◌∙◌, refl, Bool-cases, true, arith, sym, [], ◌↔◌, map, ◌≡◌, any, ◌∷◌, ◌++◌, All, ℕ, List, Text,
}

abbrev pub failures_of : Primitives → List RawEvent → List Text → List IntegrityFailure
failures_of prims events [] = []
failures_of prims events (id ∷ ids) =
    check_events prims id 1 [] (events_of id events) ++ failures_of prims events ids

append_assoc : {A : Type 0} (xs ys zs : List A) → (xs ++ ys) ++ zs ≡ xs ++ (ys ++ zs)
append_assoc [] ys zs = refl
append_assoc (x ∷ xs) ys zs = cc (append_assoc xs ys zs)

append_nil : {A : Type 0} (xs ys : List A) → xs ++ ys ≡ [] → (xs ≡ []) × (ys ≡ [])
append_nil [] ys e = (refl, e)
append_nil (x ∷ xs) ys e = absurd (ground arith)

check_streams-failures :
    (prims : Primitives) (ids : List Text) (found : List IntegrityFailure) (db : Tables)
    → (check_streams prims ids found db).0 ≡ found ++ failures_of prims db.raw_events ids
check_streams-failures prims [] found db = sym (append_nil_right found)
check_streams-failures prims (id ∷ ids) found db =
    check_streams-failures prims ids _ _ ∙ append_assoc found _ _

failures_of→chains :
    (prims : Primitives) (events : List RawEvent) (ids : List Text)
    → failures_of prims events ids ≡ []
    → All (λ id. IsChain prims 1 [] (events_of id events)) ids
failures_of→chains prims events [] h = tt
failures_of→chains prims events (id ∷ ids) h =
    let r = append_nil _ _ h in
    (
      check_events→IsChain prims id 1 [] (events_of id events) r.0,
      failures_of→chains prims events ids r.1,
    )

chains→failures_of :
    (prims : Primitives) (events : List RawEvent) (ids : List Text)
    → All (λ id. IsChain prims 1 [] (events_of id events)) ids
    → failures_of prims events ids ≡ []
chains→failures_of prims events [] h = refl
chains→failures_of prims events (id ∷ ids) h =
    rw (IsChain→check_events prims id 1 [] (events_of id events) h.0)
      (chains→failures_of prims events ids h.1)

module _ {A : Type 0} (key : A → ℕ) (P : A → Type 0) where
  All-insert_by : (x : A) (xs : List A) → (P x × All P xs) ↔ All P (insert_by key x xs)
  All-insert_by x [] = (λ h. h, λ h. h)
  All-insert_by x (y ∷ ys) =
      let ih = All-insert_by x ys in
      elim (Bool-cases (leb (key x) (key y))) [
        | inl e ↦ rw e (λ h. h, λ h. h)
        | inr e ↦ rw e (λ h. (h.1.0, ih.0 (h.0, h.1.1)), λ h. let r = ih.1 h.1 in (r.0, (h.0, r.1)))
      ]

  All-order_by : (xs : List A) → All P xs ↔ All P (order_by key xs)
  All-order_by [] = (λ h. h, λ h. h)
  All-order_by (x ∷ xs) =
      let ih = All-order_by xs in
      let r = All-insert_by x (order_by key xs) in
      (λ h. r.0 (h.0, ih.0 h.1), λ h. let s = r.1 h in (s.0, ih.1 s.1))

All-ids :
    (P : Text → Type 0) (states : List IntegrityStreamState)
    → All P (map (λ s. s.stream_id) states) ↔ All (λ s. P s.stream_id) states
All-ids P [] = (λ h. h, λ h. h)
All-ids P (s ∷ states) = let ih = All-ids P states in (λ h. (h.0, ih.0 h.1), λ h. (h.0, ih.1 h.1))

-- The check reports nothing exactly when, in each stream that has a state, the events in the order of
-- their numbers form a chain from number 1 and the empty MAC.
pub verify_integrity_iff :
    (prims : Primitives) (db : Tables)
    → ((verify_integrity prims db).0 ≡ [])
      ↔ All (λ s. IsChain prims 1 [] (events_of s.stream_id db.raw_events)) db.stream_states
unfolding verify_integrity
verify_integrity_iff prims db =
    let chain : Text → Type 0 = λ id. IsChain prims 1 [] (events_of id db.raw_events) in
    let ids = map (λ s. s.stream_id) db.stream_states in
    let same = check_streams-failures prims (order_by (λ id. id) ids) [] db in
    let sorted = All-order_by (λ id. id) chain ids in
    let named = All-ids chain db.stream_states in
    (
      λ h. named.0 (sorted.1 (failures_of→chains prims db.raw_events _ (sym same ∙ h))),
      λ h. same ∙ chains→failures_of prims db.raw_events _ (sorted.0 (named.1 h)),
    )

any-cons_if :
    (prims : Primitives) (g : IntegrityFailure) (b : Bool) (x : SecurityAlert)
    (xs : List SecurityAlert)
    → any (is_raised prims g) xs ≡ true
    → any (is_raised prims g) (cons_if b x xs) ≡ true
any-cons_if prims g true x xs h = ground arith
any-cons_if prims g false x xs h = h

-- Each failure has an alert in the table or among the new ones.
IsAlerted : Primitives → List SecurityAlert → List IntegrityFailure → IntegrityFailure → Type 0
IsAlerted prims alerts fs f =
    (any (is_raised prims f) alerts || any (is_raised prims f) (new_alerts prims alerts fs)) ≡ true

new_alerts-IsAlerted :
    (prims : Primitives) (alerts : List SecurityAlert) (fs : List IntegrityFailure)
    → All (IsAlerted prims alerts fs) fs
unfolding IsAlerted
new_alerts-IsAlerted prims alerts [] = tt
new_alerts-IsAlerted prims alerts (f ∷ fs) = (
  elim (Bool-cases (any (is_raised prims f) alerts)) [
    | inl e ↦ rw e refl
    | inr e ↦ rw e (ground (arith, ==_refl f.event_id))
  ],
  All-map (IsAlerted prims alerts fs) (IsAlerted prims alerts (f ∷ fs)) fs
      (λ g h. elim (Bool-cases (any (is_raised prims g) alerts)) [
        | inl e ↦ rw e refl
        | inr e ↦ rw e (
            any-cons_if prims g (not (any (is_raised prims f) alerts)) (failure_alert prims f)
              (new_alerts prims alerts fs)
              (subst (λ b. (b || any (is_raised prims g) (new_alerts prims alerts fs)) ≡ true) e h))
      ])
      (new_alerts-IsAlerted prims alerts fs),
)

appended-alerted :
    (prims : Primitives) (alerts : List SecurityAlert) (fs : List IntegrityFailure)
    → All (λ f. any (is_raised prims f) (alerts ++ new_alerts prims alerts fs) ≡ true) fs
unfolding IsAlerted
appended-alerted prims alerts fs =
    All-map (IsAlerted prims alerts fs)
      (λ f. any (is_raised prims f) (alerts ++ new_alerts prims alerts fs) ≡ true) fs
      (λ f h. any-append (is_raised prims f) alerts (new_alerts prims alerts fs) ∙ h)
      (new_alerts-IsAlerted prims alerts fs)

-- After the check each failure that it reports has an alert for its event.
pub failures_alerted :
    (prims : Primitives) (db : Tables)
    → All
        (λ f. any (is_raised prims f) (verify_integrity prims db).1.security_alerts ≡ true)
        (verify_integrity prims db).0
unfolding verify_integrity
failures_alerted prims db =
    let ids = order_by (λ id. id) (map (λ s. s.stream_id) db.stream_states) in
    appended-alerted prims (check_streams prims ids [] db).1.security_alerts _
