-- ===== src/Projection/Ordering.antt =====
-- The order of the replay in backend/app/projections/rebuild.py does not depend on arrival.
use kosmohack_final.Projection.Replay.{
  sort_events, raws_of, insert_event, order_key, nulls_last, leq, precedes,
}
use kosmohack_final.Models.Log.{RawEvent}
use kosmohack_final.Prelude.{
  ◌&&◌, map, ◌==◌, select, subst, All-map, All, inr, inl, Bool-cases, opt_eq, Text, Bool, ap, ◌∙◌,
  refl, sym, arith, ◌++◌, false, true, [], ◌≡◌, ◌∷◌, Option, List, ℕ, some, none,
}
use mathlib.Core.List.{Permᴰ}

leq_total : (xs ys : List ℕ) → leq xs ys ≡ false → leq ys xs ≡ true
leq_total [] ys h = ground arith
leq_total (x ∷ xs) [] h = refl
leq_total (x ∷ xs) (y ∷ ys) h = ground (arith, leq_total xs ys)

leq_antisymm : (xs ys : List ℕ) → leq xs ys ≡ true → leq ys xs ≡ true → xs ≡ ys
leq_antisymm [] [] h k = refl
leq_antisymm [] (y ∷ ys) h k = ground arith
leq_antisymm (x ∷ xs) [] h k = ground arith
leq_antisymm (x ∷ xs) (y ∷ ys) h k = grind (arith, leq_antisymm xs ys)

leq_trans : (xs ys zs : List ℕ) → leq xs ys ≡ true → leq ys zs ≡ true → leq xs zs ≡ true
leq_trans [] ys zs h k = refl
leq_trans (x ∷ xs) [] zs h k = ground arith
leq_trans (x ∷ xs) (y ∷ ys) [] h k = ground arith
leq_trans (x ∷ xs) (y ∷ ys) (z ∷ zs) h k = ground (arith, leq_trans xs ys zs)

abbrev last : List ℕ → ℕ
last [] = 0
last (x ∷ []) = x
last (x ∷ (y ∷ ys)) = last (y ∷ ys)

last-order_key :
    (time source received id : ℕ) (sequence : Option ℕ)
    → last (time ∷ source ∷ (nulls_last sequence ++ (received ∷ id ∷ []))) ≡ id
last-order_key time source received id none = refl
last-order_key time source received id (some n) = refl

-- Of two events with different identities exactly one comes first.
distinct_keys :
    (a b : RawEvent) → precedes a b ≡ true → precedes b a ≡ true → a.event_id ≡ b.event_id
unfolding precedes
distinct_keys a b h k =
    sym (last-order_key a.occurred_at a.source_id a.received_at a.event_id a.source_sequence)
    ∙ (ap last (leq_antisymm (order_key a) (order_key b) h k)
        ∙ last-order_key b.occurred_at b.source_id b.received_at b.event_id b.source_sequence)

precedes_total : (a b : RawEvent) → precedes a b ≡ false → precedes b a ≡ true
unfolding precedes
precedes_total a b = leq_total (order_key a) (order_key b)

precedes_trans :
    (a b c : RawEvent) → precedes a b ≡ true → precedes b c ≡ true → precedes a c ≡ true
unfolding precedes
precedes_trans a b c = leq_trans (order_key a) (order_key b) (order_key c)

insert_comm :
    (a b : RawEvent) (es : List RawEvent)
    → (a.event_id ≡ b.event_id → a ≡ b)
    → insert_event a (insert_event b es) ≡ insert_event b (insert_event a es)
insert_comm a b [] same = grind (arith, precedes_total a b, distinct_keys a b)
insert_comm a b (x ∷ es) same =
    grind (arith, precedes_total, distinct_keys a b, precedes_trans, insert_comm a b es)

-- No two events share an identity: it is the primary key of the raw log.
abbrev pub UniqueIds : List RawEvent → Type 0
UniqueIds es = All (λ a. All (λ b. a.event_id ≡ b.event_id → a ≡ b) es) es

All-perm : (P : RawEvent → Type 0) (xs ys : List RawEvent) → Permᴰ xs ys → All P xs → All P ys
All-perm P _ _ Permᴰ.nil h = tt
All-perm P _ _ (Permᴰ.cons {l₁ = l₁} {l₂ = l₂} e d) h = (subst P e h.0, All-perm P l₁ l₂ d h.1)
All-perm P _ _ (Permᴰ.swap e f) h = (subst P f h.1.0, (subst P e h.0, h.1.1))
All-perm P _ _ (Permᴰ.trans {l₁ = l₁} {l₂ = l₂} {l₃ = l₃} d f) h =
    All-perm P l₂ l₃ f (All-perm P l₁ l₂ d h)

UniqueIds-perm : (xs ys : List RawEvent) → Permᴰ xs ys → UniqueIds xs → UniqueIds ys
UniqueIds-perm xs ys d h =
    All-perm (λ a. All (λ b. a.event_id ≡ b.event_id → a ≡ b) ys) xs ys d
      (All-map _ _ xs (λ a k. All-perm (λ b. a.event_id ≡ b.event_id → a ≡ b) xs ys d k) h)

abbrev insert_if : Bool → RawEvent → List RawEvent → List RawEvent
insert_if true e es = insert_event e es
insert_if false e es = es

raws_of-cons :
    (id : Text) (e : RawEvent) (es : List RawEvent)
    → raws_of id (e ∷ es) ≡ insert_if (opt_eq e.item_id (some id)) e (raws_of id es)
unfolding raws_of
raws_of-cons id e es = elim (Bool-cases (opt_eq e.item_id (some id))) [
  | inl y ↦ ground arith
  | inr n ↦ ground arith
]

insert_if_comm :
    (p q : Bool) (a b : RawEvent) (es : List RawEvent)
    → (a.event_id ≡ b.event_id → a ≡ b)
    → insert_if p a (insert_if q b es) ≡ insert_if q b (insert_if p a es)
insert_if_comm true true a b es same = insert_comm a b es same
insert_if_comm true false a b es same = refl
insert_if_comm false true a b es same = refl
insert_if_comm false false a b es same = refl

swap_first :
    (id : Text) (a b : RawEvent) (es : List RawEvent)
    → (a.event_id ≡ b.event_id → a ≡ b)
    → raws_of id (a ∷ b ∷ es) ≡ raws_of id (b ∷ a ∷ es)
swap_first id a b es same =
    let p = opt_eq a.item_id (some id) in
    let q = opt_eq b.item_id (some id) in
    raws_of-cons id a (b ∷ es)
    ∙ (ap (insert_if p a) (raws_of-cons id b es)
        ∙ (insert_if_comm p q a b (raws_of id es) same
            ∙ (ap (insert_if q b) (sym (raws_of-cons id a es)) ∙ sym (raws_of-cons id b (a ∷ es)))))

-- The stored events of an item are replayed in one order, in whatever order the rows are read.
row_order_free :
    (id : Text) (arrived other : List RawEvent)
    → UniqueIds arrived
    → Permᴰ arrived other
    → raws_of id arrived ≡ raws_of id other
row_order_free id _ _ unique Permᴰ.nil = refl
row_order_free id _ _ unique (Permᴰ.cons {a} {b} {l₁} {l₂} e d) =
    let rest = row_order_free id l₁ l₂ (All-map _ _ l₁ (λ x h. h.1) unique.1) d in
    ap (λ x. raws_of id (x ∷ l₁)) e
    ∙ (raws_of-cons id b l₁
        ∙ (ap (insert_if (opt_eq b.item_id (some id)) b) rest ∙ sym (raws_of-cons id b l₂)))
row_order_free id _ _ unique (Permᴰ.swap {a} {b} {a'} {b'} {l} e f) =
    swap_first id a b l unique.0.1.0
    ∙ (ap (λ x. raws_of id (x ∷ a ∷ l)) f ∙ ap (λ x. raws_of id (a' ∷ x ∷ l)) e)
row_order_free id _ _ unique (Permᴰ.trans {l₁} {l₂} {l₃} d f) =
    row_order_free id l₁ l₂ unique d ∙ row_order_free id l₂ l₃ (UniqueIds-perm l₁ l₂ d unique) f

-- What of an event does not depend on its arrival: the source gives it.
abbrev pub IsSameEvent : RawEvent → RawEvent → Type 0
IsSameEvent a b =
    (a.event_id ≡ b.event_id)
    × (a.item_id ≡ b.item_id)
    × (a.occurred_at ≡ b.occurred_at)
    × (a.source_id ≡ b.source_id)
    × (a.source_sequence ≡ b.source_sequence)

-- Two events of one source with the same time and the same number, or both without one.
abbrev pub is_tied : RawEvent → RawEvent → Bool
is_tied a b =
    (a.occurred_at == b.occurred_at)
    && ((a.source_id == b.source_id) && opt_eq a.source_sequence b.source_sequence)

abbrev pub NoTies : List RawEvent → Type 0
NoTies [] = Unit {0}
NoTies (e ∷ es) = All (λ x. is_tied e x ≡ false) es × NoTies es

All-insert_event :
    (P : RawEvent → Type 0) (e : RawEvent) (es : List RawEvent)
    → P e
    → All P es
    → All P (insert_event e es)
All-insert_event P e [] p h = (p, tt)
All-insert_event P e (x ∷ es) p h = elim (Bool-cases (precedes e x)) [
  | inl first ↦ rw first (p, (h.0, h.1))
  | inr later ↦ rw later (h.0, All-insert_event P e es p h.1)
]

All-sort_events : (P : RawEvent → Type 0) (es : List RawEvent) → All P es → All P (sort_events es)
All-sort_events P [] h = tt
All-sort_events P (e ∷ es) h = All-insert_event P e (sort_events es) h.0 (All-sort_events P es h.1)

-- The key up to the number of the source.
abbrev source_key : RawEvent → List ℕ
source_key e = e.occurred_at ∷ e.source_id ∷ nulls_last e.source_sequence

leq-untied :
    (t s t' s' : ℕ) (n n' : Option ℕ) (xs ys : List ℕ)
    → ((t == t') && ((s == s') && opt_eq n n')) ≡ false
    → leq (t ∷ s ∷ (nulls_last n ++ xs)) (t' ∷ s' ∷ (nulls_last n' ++ ys))
      ≡ leq (t ∷ s ∷ nulls_last n) (t' ∷ s' ∷ nulls_last n')
leq-untied t s t' s' none none xs ys h = ground arith
leq-untied t s t' s' none (some n') xs ys h = ground arith
leq-untied t s t' s' (some n) none xs ys h = ground arith
leq-untied t s t' s' (some n) (some n') xs ys h = ground arith

precedes-untied :
    (a b : RawEvent) → is_tied a b ≡ false → precedes a b ≡ leq (source_key a) (source_key b)
unfolding precedes
precedes-untied a b h =
    leq-untied a.occurred_at a.source_id b.occurred_at b.source_id a.source_sequence
      b.source_sequence (a.received_at ∷ a.event_id ∷ []) (b.received_at ∷ b.event_id ∷ []) h

All-mapped :
    (P : RawEvent → Type 0) (f : RawEvent → RawEvent) (es : List RawEvent)
    → All (λ e. P (f e)) es
    → All P (map f es)
All-mapped P f [] h = tt
All-mapped P f (e ∷ es) h = (h.0, All-mapped P f es h.1)

module _ (again : RawEvent → RawEvent) (same : (e : RawEvent) → IsSameEvent (again e) e) where
  source_key-again : (e : RawEvent) → source_key (again e) ≡ source_key e
  source_key-again e = let (_, _, time, source, number) = same e in cc

  is_tied-again : (a b : RawEvent) → is_tied (again a) (again b) ≡ is_tied a b
  is_tied-again a b =
      let (_, _, time, source, number) = same a in
      let (_, _, time', source', number') = same b in cc

  precedes-again :
      (a b : RawEvent) → is_tied a b ≡ false → precedes (again a) (again b) ≡ precedes a b
  precedes-again a b untied =
      let first = precedes-untied (again a) (again b) (is_tied-again a b ∙ untied) in
      let second = precedes-untied a b untied in
      let left = source_key-again a in let right = source_key-again b in cc

  insert-again :
      (e : RawEvent) (es : List RawEvent)
      → All (λ x. is_tied e x ≡ false) es
      → insert_event (again e) (map again es) ≡ map again (insert_event e es)
  insert-again e [] h = refl
  insert-again e (x ∷ es) h = grind (arith, precedes-again e x, insert-again e es, h.0, h.1)

  sort-again :
      (es : List RawEvent) → NoTies es → sort_events (map again es) ≡ map again (sort_events es)
  sort-again [] h = refl
  sort-again (e ∷ es) h =
      ap (insert_event (again e)) (sort-again es h.1)
      ∙ insert-again e (sort_events es) (All-sort_events (λ x. is_tied e x ≡ false) es h.0)

  select-again :
      (id : Text) (es : List RawEvent)
      → select (λ e. opt_eq e.item_id (some id)) (map again es)
        ≡ map again (select (λ e. opt_eq e.item_id (some id)) es)
  select-again id [] = refl
  select-again id (e ∷ es) =
      let item : opt_eq (again e).item_id (some id) ≡ opt_eq e.item_id (some id) =
        ap (λ i. opt_eq i (some id)) (same e).1 in
      let rest = select-again id es in
      elim (Bool-cases (opt_eq e.item_id (some id))) [
        | inl yes_its ↦ rw (item ∙ yes_its, yes_its, rest) refl
        | inr not_its ↦ rw (item ∙ not_its, not_its, rest) refl
      ]

  UniqueIds-again : (es : List RawEvent) → UniqueIds es → UniqueIds (map again es)
  UniqueIds-again es h = All-mapped _ again es (
      All-map _ _ es
        (λ a k.
          All-mapped _ again es (
            All-map _ _ es (λ b unique e. ap again (unique (sym (same a).0 ∙ (e ∙ (same b).0)))) k))
        h)

  -- The events of an item are replayed in one order, in whatever order they arrive and whatever their
  -- arrival writes, such as the time of their receipt, as long as no two of them tie on the time, the
  -- source and its number.
  pub arrival_order_free :
      (id : Text) (arrived other : List RawEvent)
      → UniqueIds arrived
      → NoTies (select (λ e. opt_eq e.item_id (some id)) arrived)
      → Permᴰ (map again arrived) other
      → raws_of id other ≡ map again (raws_of id arrived)
  unfolding raws_of
  arrival_order_free id arrived other unique untied d =
      sym (row_order_free id (map again arrived) other (UniqueIds-again arrived unique) d)
      ∙ (ap sort_events (select-again id arrived) ∙ sort-again _ untied)
