-- ===== src/Delivery/Worker/Retry.antt =====
-- Retries of worker/main.py come to an end, and what is delivered stays delivered.
use kosmohack_final.Session.{ok, request}
use kosmohack_final.Models.Delivery.{ResultPayload, OutboxMessage}
use kosmohack_final.Delivery.Worker.{
  first_created, next_due, network, timeout, not_json, http_status, acknowledged, counted,
  process_one, Tables, is_open, is_crash, is_due, Outcome, Settings, earliest, settle,
}
use kosmohack_final.Prelude.{
  subst, ==_refl, Option-cases, All-map, refl, ltb, [], inr, ==→eq, inl, ◌⊎◌, Bool-cases, arith,
  ◌<◌, update, ◌-◌, some, none, true, false, ◌+◌, ◌≡◌, select, ◌==◌, All, ◌∷◌, find, if◌then◌else◌,
  List, ℕ,
}
use Prim.Native.Nat.{ℕ}

-- The attempts that a message has left.
abbrev pub left : ℕ → OutboxMessage → ℕ
left limit m = if is_open m.state then limit - m.attempts else 0

pub total_left : ℕ → List OutboxMessage → ℕ
total_left limit [] = 0
total_left limit (m ∷ ms) = left limit m + total_left limit ms

-- A message that may be sent again has attempts left, and no two messages share an identity.
abbrev pub IsBounded : ℕ → List OutboxMessage → Type 0
IsBounded limit [] = Unit
IsBounded limit (m ∷ ms) =
    (is_open m.state ≡ true → m.attempts < limit)
    × (find (λ (x : OutboxMessage). x.message_id == m.message_id) ms ≡ none)
    × IsBounded limit ms

-- One call uses one attempt: the message is closed, or it stays open with attempts left, the
-- same attempts but one.
settle-left :
    (later limit : ℕ) (o : Outcome) (m : OutboxMessage)
    → is_crash o ≡ false
    → is_open m.state ≡ true
    → m.attempts < limit
    → let m' = settle later limit o (counted m) in
      (left limit m' < left limit m)
      × (is_open m'.state ≡ true → m'.attempts < limit)
      × (m'.message_id ≡ m.message_id)
unfolding settle
settle-left later limit (acknowledged id is_ack) m h opened bound = ground arith
settle-left later limit not_json m h opened bound = ground arith
settle-left later limit (http_status status) m h opened bound = ground arith
settle-left later limit timeout m h opened bound = ground arith
settle-left later limit network m h opened bound = ground arith
settle-left later limit Outcome.crashed m h opened bound = cc

update-none :
    (id k : ℕ) (v : OutboxMessage) (ms : List OutboxMessage)
    → find (λ (x : OutboxMessage). x.message_id == id) ms ≡ none
    → v.message_id ≡ k
    → find
        (λ (x : OutboxMessage). x.message_id == id)
        (update (λ (x : OutboxMessage). x.message_id == k) (λ _. v) ms)
      ≡ none
update-none id k v [] e h = refl
update-none id k v (x ∷ ms) e h = ground (arith, update-none id k v ms)

update_same :
    (k : ℕ) (v : OutboxMessage) (ms : List OutboxMessage)
    → find (λ (x : OutboxMessage). x.message_id == k) ms ≡ none
    → update (λ (x : OutboxMessage). x.message_id == k) (λ _. v) ms ≡ ms
update_same k v [] e = refl
update_same k v (x ∷ ms) e = ground (arith, update_same k v ms)

-- Writing one message of a bounded outbox lowers the attempts left by what that message used.
update-left :
    (limit k : ℕ) (m v : OutboxMessage) (ms : List OutboxMessage)
    → IsBounded limit ms
    → k ≡ m.message_id
    → find (λ (x : OutboxMessage). x.message_id == m.message_id) ms ≡ some m
    → v.message_id ≡ m.message_id
    → (is_open v.state ≡ true → v.attempts < limit)
    → let ms' = update (λ (x : OutboxMessage). x.message_id == k) (λ _. v) ms in
      IsBounded limit ms'
      × (total_left limit ms' + left limit m ≡ total_left limit ms + left limit v)
unfolding total_left
update-left limit k m v [] b key e same opened = cc
update-left limit k m v (x ∷ ms) b key e same opened = elim (Bool-cases (x.message_id == k)) [
  | inl here ↦ ground (arith, update_same k v ms, ==→eq x.message_id k here)
  | inr there ↦ ground (arith, update-left limit k m v ms b.2 key, update-none x.message_id k v ms)
]

earliest-find :
    (P : OutboxMessage → Type 0) (best : OutboxMessage) (ms : List OutboxMessage)
    → P best
    → All P ms
    → P (earliest best ms)
unfolding earliest
earliest-find P best [] p ps = p
earliest-find P best (m ∷ ms) p ps = elim (Bool-cases (ltb m.created_at best.created_at)) [
  | inl e ↦ rw e (earliest-find P m ms ps.0 ps.1)
  | inr e ↦ rw e (earliest-find P best ms p ps.1)
]

-- A message of a bounded outbox is found by its identity.
abbrev pub Found : ℕ → List OutboxMessage → OutboxMessage → Type 0
Found now all m =
    (is_due now m ≡ true)
    × (find (λ (x : OutboxMessage). x.message_id == m.message_id) all ≡ some m)

Found-cons :
    (limit now : ℕ) (m x : OutboxMessage) (ms : List OutboxMessage)
    → IsBounded limit (m ∷ ms)
    → Found now ms x
    → Found now (m ∷ ms) x
Found-cons limit now m x ms b f = (f.0, ground arith)

select-Found :
    (limit now : ℕ) (ms : List OutboxMessage)
    → IsBounded limit ms
    → All (Found now ms) (select (is_due now) ms)
select-Found limit now [] b = tt
select-Found limit now (m ∷ ms) b =
    let rest : All (Found now (m ∷ ms)) (select (is_due now) ms) =
      All-map (Found now ms) (Found now (m ∷ ms)) (select (is_due now) ms)
        (λ x. Found-cons limit now m x ms b) (select-Found limit now ms b.2) in
    elim (Bool-cases (is_due now m)) [ inl e ↦ rw e ((e, rw ==_refl), rest) | inr e ↦ rw e rest ]

pub next_due-Found :
    (limit now : ℕ) (ms : List OutboxMessage) (m : OutboxMessage)
    → IsBounded limit ms
    → next_due now ms ≡ some m
    → Found now ms m
unfolding next_due
next_due-Found limit now ms m b e = go (select (is_due now) ms) (select-Found limit now ms b) e
  where
    go :
        (xs : List OutboxMessage)
        → All (Found now ms) xs
        → first_created xs ≡ some m
        → Found now ms m
    go [] h k = cc
    go (x ∷ xs) h k =
        let same : earliest x xs ≡ m = cc in
        subst (Found now ms) same (earliest-find (Found now ms) x xs h.0 h.1)

find-bound :
    (limit id : ℕ) (ms : List OutboxMessage) (m : OutboxMessage)
    → IsBounded limit ms
    → find (λ (x : OutboxMessage). x.message_id == id) ms ≡ some m
    → is_open m.state ≡ true
    → m.attempts < limit
find-bound limit id [] m b e o = cc
find-bound limit id (x ∷ ms) m b e o = ground (arith, find-bound limit id ms m b.2)

-- Each round that handles a message keeps the outbox bounded and uses up an attempt; a round that
-- handles none leaves the outbox as it was.
pub process_one-progress :
    (now later : ℕ) (settings : Settings) (send : ResultPayload → Outcome) (db : Tables)
    → IsBounded settings.outbox_max_attempts db.outbox
    → let limit = settings.outbox_max_attempts in
      let (r, db') = request (process_one now later settings send) db in
      ((r ≡ ok true)
        × IsBounded limit db'.outbox
        × (total_left limit db'.outbox < total_left limit db.outbox))
      ⊎ ((r ≡ ok false) × (db'.outbox ≡ db.outbox))
unfolding process_one
process_one-progress now later settings send db b = elim (Option-cases (next_due now db.outbox)) [
  | inl e ↦ inr (ground arith)
  | inr (m, e) ↦ elim (Bool-cases (is_crash (send m.payload))) [
    | inl crash ↦ inr (ground arith)
    | inr fine ↦
        let limit = settings.outbox_max_attempts in
        let found = next_due-Found limit now db.outbox m b e in
        let v = settle later limit (send m.payload) (counted m) in
        inl (
          ground (
            arith,
            settle-left later limit (send m.payload) m,
            find-bound limit m.message_id db.outbox m b found.1,
            update-left limit v.message_id m v db.outbox b,
            found.0,
            found.1,
          ))
  ]
]
