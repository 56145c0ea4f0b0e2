-- ===== src/Delivery/Emulator.antt =====
-- erp_emulator/app/main.py. The lock makes each handler one step, except that a delayed request
-- passes the lock twice: `begin` is its first half and `deliver` its second.
use kosmohack_final.Prelude.{
  sym, subst, refl, inr, arith, ◌+◌, ◌==◌, true, inl, ◌++◌, length, ◌≡◌, find, ◌∷◌, Option-cases,
  if◌then◌else◌, false, ℕ, Text, Option, none, some, List, [], Bool,
}
use kosmohack_final.Models.Delivery.{ResultPayload}

pub data Mode : Type 0 where
  normal timeout_once error_503 reject_400 offline : Mode

pub record Ack : Type 0 where
  pub message_id : Text
  pub number : ℕ
  pub received_at : ℕ

-- `state.deliveries[message_id]`
pub record Delivery : Type 0 where
  pub payload : ResultPayload
  pub ack : Ack

pub record State : Type 0 where
  pub mode : Mode
  pub timeout_consumed : Bool
  pub deliveries : List Delivery

-- `State()` and `reset`
abbrev pub initial : State
initial = record { mode = Mode.normal; timeout_consumed = false; deliveries = [] }

pub data Begun : Type 0 where
  http_error : ℕ → Begun
  delayed : Begun
  proceed : Begun

-- `quality_results` up to the second `with state.lock`.
unfoldable pub begin : State → Begun × State
begin s = elim s.mode [
  | Mode.normal ↦ (proceed, s)
  | Mode.timeout_once ↦
      if s.timeout_consumed then (proceed, s) else (delayed, record s { timeout_consumed = true })
  | Mode.error_503 ↦ (http_error 503, s)
  | Mode.reject_400 ↦ (http_error 400, s)
  | Mode.offline ↦ (http_error 503, s)
]

abbrev pub delivery_of : Text → State → Option Delivery
delivery_of id s = find (λ (d : Delivery). d.payload.message_id == id) s.deliveries

abbrev pub fresh_ack : ℕ → ResultPayload → State → Ack
fresh_ack now body s = record {
  message_id = body.message_id;
  number = length s.deliveries + 1;
  received_at = now;
}

-- The second `with state.lock`.
unfoldable pub deliver : ℕ → ResultPayload → State → Ack × State
deliver now body s = elim (delivery_of body.message_id s) [
  | some existing ↦ (existing.ack, s)
  | none ↦ (
    fresh_ack now body s,
    record s {
      deliveries = s.deliveries ++ record { payload = body; ack = fresh_ack now body s } ∷ [];
    },
  )
]

unfoldable pub behavior : Mode → State → State
behavior mode s = record s { mode = mode; timeout_consumed = false }

-- Each message has one delivery, and its acknowledgement names it.
abbrev pub IsConsistent : List Delivery → Type 0
IsConsistent [] = Unit
IsConsistent (d ∷ ds) =
    (d.ack.message_id ≡ d.payload.message_id)
    × (find (λ (x : Delivery). x.payload.message_id == d.payload.message_id) ds ≡ none)
    × IsConsistent ds

find-append_none :
    (id : ℕ) (ds : List Delivery) (d : Delivery)
    → find (λ (x : Delivery). x.payload.message_id == id) ds ≡ none
    → find (λ (x : Delivery). x.payload.message_id == id) (ds ++ d ∷ [])
      ≡ (if d.payload.message_id == id then some d else none)
find-append_none id [] d e = refl
find-append_none id (x ∷ ds) d e = ground (arith, find-append_none id ds d)

append-IsConsistent :
    (ds : List Delivery) (d : Delivery)
    → d.ack.message_id ≡ d.payload.message_id
    → find (λ (x : Delivery). x.payload.message_id == d.payload.message_id) ds ≡ none
    → IsConsistent ds
    → IsConsistent (ds ++ d ∷ [])
append-IsConsistent [] d a e h = (a, refl, tt)
append-IsConsistent (x ∷ ds) d a e h =
    ground (arith, append-IsConsistent ds d a, find-append_none x.payload.message_id ds d)

-- However the emulator was brought into its state, a delivery keeps it consistent: no two
-- deliveries share a message id, and each acknowledgement names the message of its delivery.
pub deliver-IsConsistent :
    (now : ℕ) (body : ResultPayload) (s : State)
    → IsConsistent s.deliveries
    → IsConsistent (deliver now body s).1.deliveries
unfolding deliver
deliver-IsConsistent now body s h = elim (Option-cases (delivery_of body.message_id s)) [
  | inl e ↦ ground (
    arith,
    append-IsConsistent s.deliveries (record { payload = body; ack = fresh_ack now body s }) refl e
        h,
  )
  | inr (d, e) ↦ ground arith
]

find-message :
    (id : ℕ) (ds : List Delivery) (d : Delivery)
    → IsConsistent ds
    → find (λ (x : Delivery). x.payload.message_id == id) ds ≡ some d
    → d.ack.message_id ≡ id
find-message id [] d h e = cc
find-message id (x ∷ ds) d h e = ground (arith, find-message id ds d h.2)

-- A message that is sent again, at any later time and whatever its other fields, gets the
-- acknowledgement that it got before, which names it, and the state does not change.
pub deliver_again :
    (now later : ℕ) (body body' : ResultPayload) (s : State)
    → IsConsistent s.deliveries
    → body'.message_id ≡ body.message_id
    → let (ack, t) = deliver now body s in
      (deliver later body' t ≡ (ack, t)) × (ack.message_id ≡ body.message_id)
unfolding deliver
deliver_again now later body body' s h same = elim (Option-cases (delivery_of body.message_id s)) [
  | inl e ↦ ground (
    arith,
    find-append_none body.message_id s.deliveries
        (record { payload = body; ack = fresh_ack now body s }) e,
  )
  | inr (d, e) ↦ ground (arith, find-message body.message_id s.deliveries d h e)
]

-- The states that the emulator can come into, by the steps of its handlers in any order.
pub data Reachable : State → Type 0 where
  started : Reachable initial
  begun : (s : State) → Reachable s → Reachable (begin s).1
  delivered :
      (now : ℕ) (body : ResultPayload) (s : State) → Reachable s → Reachable (deliver now body s).1
  behaved : (mode : Mode) (s : State) → Reachable s → Reachable (behavior mode s)

begin-deliveries : (s : State) → (begin s).1.deliveries ≡ s.deliveries
unfolding begin
begin-deliveries s = ground arith

-- In every state that the emulator can come into, whatever the order of requests, delays and changes
-- of its behavior, no two deliveries share a message id and each acknowledgement names the message of
-- its delivery.
pub Reachable-IsConsistent : (s : State) → Reachable s → IsConsistent s.deliveries
unfolding behavior
Reachable-IsConsistent s started = tt
Reachable-IsConsistent s (begun t r) =
    subst IsConsistent (sym (begin-deliveries t)) (Reachable-IsConsistent t r)
Reachable-IsConsistent s (delivered now body t r) =
    deliver-IsConsistent now body t (Reachable-IsConsistent t r)
Reachable-IsConsistent s (behaved mode t r) = Reachable-IsConsistent t r
