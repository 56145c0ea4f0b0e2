-- ===== src/Delivery/Worker/Rounds.antt =====
-- How long worker/main.py has something to do: the loop of `run`, as its rounds.
use kosmohack_final.Delivery.Worker.Retry.{process_one-progress, total_left, IsBounded}
use kosmohack_final.Delivery.Worker.{is_crash, next_due, Settings, process_one, Tables, Outcome}
use kosmohack_final.Models.Delivery.{ResultPayload}
use kosmohack_final.Prelude.{
  none, some, Option-cases, not, ◌&&◌, true, refl, ◌+◌, is_some, ◌≡◌, suc, [], if◌then◌else◌, subst,
  sym, false, inr, inl, arith, ◌≤◌, ◌∷◌, List, Bool, ℕ,
}
use kosmohack_final.Session.{request, err, ok, Result}

-- One round: the times before and after the call, and what the call comes to.
pub record Round : Type 0 where
  pub now : ℕ
  pub later : ℕ
  pub send : ResultPayload → Outcome

abbrev pub is_handled : Result Bool → Bool
is_handled (ok b) = b
is_handled (err e) = false

-- The rounds that handle a message.
abbrev pub handled : Settings → List Round → Tables → ℕ
handled settings [] db = 0
handled settings (round ∷ rounds) db =
    let (r, db') = request (process_one round.now round.later settings round.send) db in
    let rest = handled settings rounds db' in if is_handled r then suc rest else rest

-- The rounds that handle a message are at most as many as the bounded outbox has attempts left.
handled_bounded :
    (settings : Settings) (rounds : List Round) (db : Tables)
    → IsBounded settings.outbox_max_attempts db.outbox
    → handled settings rounds db ≤ total_left settings.outbox_max_attempts db.outbox
handled_bounded settings [] db h = omega arith
handled_bounded settings (round ∷ rounds) db h =
    let limit = settings.outbox_max_attempts in
    let db' = (request (process_one round.now round.later settings round.send) db).1 in
    elim (process_one-progress round.now round.later settings round.send db h) [
      | inl (yes_ok, bounded, less) ↦
          let ih = handled_bounded settings rounds db' bounded in ground arith
      | inr (idle, same) ↦
          let ih = handled_bounded settings rounds db' (subst (IsBounded limit) (sym same) h) in
          ground arith
    ]

-- Whether the round calls the external system, and whether that call ends in an exception that
-- `process_one` does not handle.
abbrev calls : Round → Tables → Bool
calls round db = is_some (next_due round.now db.outbox)

abbrev crashes : Round → Tables → Bool
crashes round db = elim (next_due round.now db.outbox) [
  | none ↦ false
  | some m ↦ is_crash (round.send m.payload)
]

-- The rounds that pass a test on the database that they meet.
abbrev pub rounds_that : (Round → Tables → Bool) → Settings → List Round → Tables → ℕ
rounds_that test settings [] db = 0
rounds_that test settings (round ∷ rounds) db =
    let db' = (request (process_one round.now round.later settings round.send) db).1 in
    let rest = rounds_that test settings rounds db' in if test round db then suc rest else rest

abbrev pub sent : Settings → List Round → Tables → ℕ
sent = rounds_that calls

abbrev pub crashed_rounds : Settings → List Round → Tables → ℕ
crashed_rounds = rounds_that crashes

handled_or_crashed :
    (settings : Settings) (round : Round) (db : Tables)
    → is_handled (request (process_one round.now round.later settings round.send) db).0
      ≡ (calls round db && not (crashes round db))
unfolding process_one
handled_or_crashed settings round db = elim (Option-cases (next_due round.now db.outbox)) [
  | inl none_due ↦ ground arith
  | inr (m, due) ↦ ground arith
]

crashes→calls : (round : Round) (db : Tables) → crashes round db ≡ true → calls round db ≡ true
crashes→calls round db h = elim (Option-cases (next_due round.now db.outbox)) [
  | inl none_due ↦ ground arith
  | inr (m, due) ↦ ground arith
]

sent-handled :
    (settings : Settings) (rounds : List Round) (db : Tables)
    → sent settings rounds db ≡ handled settings rounds db + crashed_rounds settings rounds db
sent-handled settings [] db = refl
sent-handled settings (round ∷ rounds) db =
    let db' = (request (process_one round.now round.later settings round.send) db).1 in
    let ih = sent-handled settings rounds db' in
    let this = handled_or_crashed settings round db in
    let called = crashes→calls round db in ground arith

-- However long the worker runs, it calls the external system in at most as many rounds as the bounded
-- outbox has attempts left, and the rounds in which the call ends in an exception that is not
-- handled. Such a round is rolled back and its attempt is not counted, so these have no bound.
pub sent_bounded :
    (settings : Settings) (rounds : List Round) (db : Tables)
    → IsBounded settings.outbox_max_attempts db.outbox
    → sent settings rounds db
      ≤ total_left settings.outbox_max_attempts db.outbox + crashed_rounds settings rounds db
sent_bounded settings rounds db h =
    omega (arith, sent-handled settings rounds db, handled_bounded settings rounds db h)
