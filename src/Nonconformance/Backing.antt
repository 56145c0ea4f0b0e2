-- ===== src/Nonconformance/Backing.antt =====
-- What it means that the exported results rest on decisions, and the changes of the tables that
-- keep it: backend/app/quality/release.py.
-- The decision of a result: a controller's verdict, with a disposition that may be exported.
use kosmohack_final.Nonconformance.Tables.{Tables}
use kosmohack_final.Nonconformance.Release.{message_of, result_of, is_exportable, is_final}
use kosmohack_final.Models.Quality.{ControllerDecision, Nonconformance}
use kosmohack_final.Models.Delivery.{QualityResult, OutboxMessage}
use kosmohack_final.Prelude.{
  ◌⊎◌, sym, refl, All-append, inr, All-map, [], inl, true, ◌∷◌, ◌++◌, All, Exists, ◌≡◌, ℕ, List,
}

abbrev pub Decides : QualityResult → ControllerDecision → Type 0
Decides q d =
    (d.id ≡ q.decision_id) × (is_final d.verdict ≡ true) × (is_exportable d.disposition ≡ true)

abbrev pub Carries : OutboxMessage → QualityResult → Type 0
Carries m q = (q.message_id ≡ m.message_id) × (q.payload ≡ m.payload)

pub record Backed (decisions : List ControllerDecision) (results : List QualityResult)
    (messages : List OutboxMessage) : Type 0 where
  pub decided : All (λ q. Exists (Decides q) decisions) results
  pub carried : All (λ m. Exists (Carries m) results) messages

module _ {A : Type 0} (P : A → Type 0) where
  Exists-left : (xs ys : List A) → Exists P xs → Exists P (xs ++ ys)
  Exists-left [] ys h = absurd h
  Exists-left (x ∷ xs) ys (inl p) = inl p
  Exists-left (x ∷ xs) ys (inr h) = inr (Exists-left xs ys h)

  Exists-last : (xs : List A) (x : A) → P x → Exists P (xs ++ x ∷ [])
  Exists-last [] x p = inl p
  Exists-last (y ∷ xs) x p = inr (Exists-last xs x p)

pub subst₃ :
    {ds ds' : List ControllerDecision} {qs qs' : List QualityResult} {ms ms' : List OutboxMessage}
    → ds ≡ ds'
    → qs ≡ qs'
    → ms ≡ ms'
    → Backed ds qs ms
    → Backed ds' qs' ms'
subst₃ e q m h = rw (← e, ← q, ← m) h

pub Backed-decision :
    (ds : List ControllerDecision) (qs : List QualityResult) (ms : List OutboxMessage)
    (d : ControllerDecision)
    → Backed ds qs ms
    → Backed (ds ++ d ∷ []) qs ms
Backed-decision ds qs ms d h = record {
  decided =
      All-map (λ q. Exists (Decides q) ds) (λ q. Exists (Decides q) (ds ++ d ∷ [])) qs
        (λ q. Exists-left (Decides q) ds (d ∷ [])) h.decided;
  carried = h.carried;
}

pub Backed-export :
    (now : ℕ) (ncr : Nonconformance) (d : ControllerDecision) (ds : List ControllerDecision)
    (qs : List QualityResult) (ms : List OutboxMessage)
    → is_final d.verdict ≡ true
    → is_exportable d.disposition ≡ true
    → Backed ds qs ms
    → Backed (ds ++ d ∷ []) (qs ++ result_of now ncr d ∷ []) (ms ++ message_of now ncr d ∷ [])
Backed-export now ncr d ds qs ms final exportable h =
    let b = Backed-decision ds qs ms d h in
    let q = result_of now ncr d in
    record {
      decided =
          All-append (λ q. Exists (Decides q) (ds ++ d ∷ [])) qs (q ∷ []) b.decided
            (Exists-last (Decides q) ds d (refl, final, exportable), tt);
      carried =
          All-append (λ m. Exists (Carries m) (qs ++ q ∷ [])) ms (message_of now ncr d ∷ [])
            (All-map (λ m. Exists (Carries m) qs) (λ m. Exists (Carries m) (qs ++ q ∷ [])) ms
              (λ m. Exists-left (Carries m) qs (q ∷ [])) h.carried)
            (Exists-last (Carries (message_of now ncr d)) qs q (refl, refl), tt);
    }

abbrev pub IsBacked : Tables → Type 0
IsBacked db = Backed db.decisions db.quality_results db.outbox

-- The tables after a request: as before, or with one decision more, and then with one result and
-- one message more if that decision may be exported.
abbrev pub Extends : ℕ → Nonconformance → ControllerDecision → Tables → Tables → Type 0
Extends now ncr d db db' =
    (db'.decisions ≡ db.decisions ++ d ∷ [])
    × (((db'.quality_results ≡ db.quality_results) × (db'.outbox ≡ db.outbox))
        ⊎ ((is_final d.verdict ≡ true)
            × (is_exportable d.disposition ≡ true)
            × (db'.quality_results ≡ db.quality_results ++ result_of now ncr d ∷ [])
            × (db'.outbox ≡ db.outbox ++ message_of now ncr d ∷ [])))

pub Extends-IsBacked :
    (now : ℕ) (ncr : Nonconformance) (d : ControllerDecision) (db db' : Tables)
    → Extends now ncr d db db'
    → IsBacked db
    → IsBacked db'
Extends-IsBacked now ncr d db db' (e, inl (q, m)) h =
    subst₃ (sym e) (sym q) (sym m) (Backed-decision db.decisions db.quality_results db.outbox d h)
Extends-IsBacked now ncr d db db' (e, inr (final, exportable, q, m)) h =
    subst₃ (sym e) (sym q) (sym m)
      (Backed-export now ncr d db.decisions db.quality_results db.outbox final exportable h)

pub either-IsBacked :
    (now : ℕ) (ncr : Nonconformance) (d : ControllerDecision) (db db' : Tables)
    → (db' ≡ db) ⊎ Extends now ncr d db db'
    → IsBacked db
    → IsBacked db'
either-IsBacked now ncr d db db' (inl e) h = rw e h
either-IsBacked now ncr d db db' (inr x) h = Extends-IsBacked now ncr d db db' x h

-- A request that leaves the database as it was.
pub same-IsBacked : (db db' : Tables) → db' ≡ db → IsBacked db → IsBacked db'
same-IsBacked db db' e h = rw e h
