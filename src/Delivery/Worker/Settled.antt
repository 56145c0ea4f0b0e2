-- ===== src/Delivery/Worker/Settled.antt =====
-- What one round of worker/main.py makes of a message.
use Prim.Native.Nat.{zero}
use kosmohack_final.Session.{request}
use kosmohack_final.Delivery.Worker.Retry.{next_due-Found, IsBounded}
use kosmohack_final.Models.Delivery.{OutboxState, ResultPayload, OutboxMessage}
use kosmohack_final.Delivery.Worker.{
  http_status, next_due, OutboxState, is_crash, counted, acknowledged, Tables, ResultPayload,
  is_open, Outcome, Settings, OutboxMessage, process_one, settle,
}
use kosmohack_final.Prelude.{
  opt_eq_refl, opt_eq→eq, pow-suc, inr, ◌↔◌, inl, ◌+◌, [], Option-cases, ◌<◌, ◌∷◌, false, some,
  update, ◌==◌, refl, find, suc, true, ◌≢◌, arith, ◌^◌, List, ◌≡◌, ◌≤◌, ℕ,
}

two_pow_pos : (n : ℕ) → 1 ≤ 2 ^ n
two_pow_pos zero = omega arith
two_pow_pos (suc n) = rw pow-suc (omega (arith, two_pow_pos n))

-- A message that is to be retried waits: its next attempt is after the failed one, by five
-- minutes at most. One that has been acknowledged, and no other, is delivered: the answer named
-- its identity and had the status ACK.
pub settle_schedule :
    (later limit : ℕ) (o : Outcome) (m : OutboxMessage)
    → is_open m.state ≡ true
    → let m' = settle later limit o (counted m) in
      (is_crash o ≡ false
        → m'.state ≡ OutboxState.retrying
        → (later < m'.next_attempt_at) × (m'.next_attempt_at ≤ later + 300000000))
      × ((m'.state ≡ OutboxState.delivered) ↔ (o ≡ acknowledged (some m.message_id) true))
unfolding settle
settle_schedule later limit (acknowledged id is_ack) m opened = (
  λ c r. ground arith,
  (
    λ h. ground (arith, opt_eq→eq id (some m.message_id)),
    λ h. ground (arith, opt_eq_refl (some m.message_id)),
  ),
)
settle_schedule later limit (http_status s) m opened =
    (λ c r. ground (arith, two_pow_pos (m.attempts + 1)), (λ h. ground arith, λ h. ground arith))
settle_schedule later limit _ m opened =
    (λ c r. ground (arith, two_pow_pos (m.attempts + 1)), (λ h. ground arith, λ h. ground arith))

find-other :
    (id k : ℕ) (v : OutboxMessage) (ms : List OutboxMessage)
    → id ≢ k
    → v.message_id ≡ k
    → find
        (λ (x : OutboxMessage). x.message_id == id)
        (update (λ (x : OutboxMessage). x.message_id == k) (λ _. v) ms)
      ≡ find (λ (x : OutboxMessage). x.message_id == id) ms
find-other id k v [] ne h = refl
find-other id k v (x ∷ ms) ne h = ground (arith, find-other id k v ms ne h)

message_id-settle :
    (later limit : ℕ) (o : Outcome) (m : OutboxMessage)
    → (settle later limit o m).message_id ≡ m.message_id
unfolding settle
message_id-settle later limit (acknowledged id is_ack) m = ground arith
message_id-settle later limit _ m = refl

-- A message that is delivered or has failed is never touched again, whatever the other end
-- answers.
closed_untouched :
    (now later : ℕ) (settings : Settings) (send : ResultPayload → Outcome) (db : Tables) (id : ℕ)
    (m : OutboxMessage)
    → IsBounded settings.outbox_max_attempts db.outbox
    → find (λ (x : OutboxMessage). x.message_id == id) db.outbox ≡ some m
    → is_open m.state ≡ false
    → find
        (λ (x : OutboxMessage). x.message_id == id)
        (request (process_one now later settings send) db).1.outbox
      ≡ some m
unfolding process_one
closed_untouched now later settings send db id m b e closed =
    elim (Option-cases (next_due now db.outbox)) [
      | inl none_due ↦ ground arith
      | inr (due, d) ↦
          let limit = settings.outbox_max_attempts in
          let found = next_due-Found limit now db.outbox due b d in
          let v = settle later limit (send due.payload) (counted due) in
          ground (
            arith,
            found.0,
            found.1,
            message_id-settle later limit (send due.payload) (counted due),
            find-other id v.message_id v db.outbox,
          )
    ]
