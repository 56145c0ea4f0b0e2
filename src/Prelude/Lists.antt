-- ===== src/Prelude/Lists.antt =====
-- Lists over the native numbers, and rows of a table: search, update, filter.
use Prim.Native.Nat.{ℕ, suc, ◌+◌}
use mathlib.Core.Path.{◌≡◌, refl}
use mathlib.Core.Logic.{◌⊎◌, ◌≢◌, inl, inr}
use mathlib.Core.Bool.{Bool, true, false, ◌||◌}
use mathlib.Core.Option.{Option, none, some}
use mathlib.Core.List.{List, [], ◌∷◌, ◌++◌}
use native.Mathlib.Omega.{arith}
use kosmohack_final.Prelude.Tests.{Bool-cases, ◌==◌, if◌then◌else◌}

module _ {ℓ} {A : Type ℓ} where
  abbrev pub length : List A → ℕ
  length [] = 0
  length (x ∷ xs) = suc (length xs)

  -- `any(p(x) for x in xs)`
  abbrev pub any : (A → Bool) → List A → Bool
  any p [] = false
  any p (x ∷ xs) = p x || any p xs

  -- The first row that passes the test: `select(...).where(p).limit(1)`.
  abbrev pub find : (A → Bool) → List A → Option A
  find p [] = none
  find p (x ∷ xs) = if p x then some x else find p xs

  -- The rows that pass the test, in order.
  abbrev pub select : (A → Bool) → List A → List A
  select p [] = []
  select p (x ∷ xs) = let rest = select p xs in if p x then x ∷ rest else rest

  -- A write to each row that passes the test.
  abbrev pub update : (A → Bool) → (A → A) → List A → List A
  update p f [] = []
  update p f (x ∷ xs) = (if p x then f x else x) ∷ update p f xs

  -- `if test: rows.append(x)`, for the loops that build a list from its end.
  abbrev pub cons_if : Bool → A → List A → List A
  cons_if true x xs = x ∷ xs
  cons_if false x xs = xs

  -- Every row satisfies the predicate.
  abbrev pub All {κ} : (A → Type κ) → List A → Type κ
  All P [] = Unit
  All P (x ∷ xs) = P x × All P xs

  -- Some row satisfies the predicate.
  abbrev pub Exists : (A → Type 0) → List A → Type 0
  Exists P [] = ⊥
  Exists P (x ∷ xs) = P x ⊎ Exists P xs

  pub length-append : (xs ys : List A) → length (xs ++ ys) ≡ length xs + length ys
  length-append [] ys = omega arith
  length-append (x ∷ xs) ys = omega (arith, length-append xs ys)

  pub any-append : (p : A → Bool) (xs ys : List A) → any p (xs ++ ys) ≡ (any p xs || any p ys)
  any-append p [] ys = refl
  any-append p (x ∷ xs) ys = ground (arith, any-append p xs ys)

  pub select-append :
      (p : A → Bool) (xs ys : List A) → select p (xs ++ ys) ≡ select p xs ++ select p ys
  select-append p [] ys = refl
  select-append p (x ∷ xs) ys = ground (arith, select-append p xs ys)

  pub All-append {κ} : (P : A → Type κ) (xs ys : List A) → All P xs → All P ys → All P (xs ++ ys)
  All-append P [] ys hx hy = hy
  All-append P (x ∷ xs) ys hx hy = (hx.0, All-append P xs ys hx.1 hy)

  pub All-cons_if {κ} :
      (P : A → Type κ) (b : Bool) (x : A) (xs : List A)
      → (b ≡ true → P x)
      → All P xs
      → All P (cons_if b x xs)
  All-cons_if P true x xs h k = (h refl, k)
  All-cons_if P false x xs h k = k

  pub All-map {κ μ} :
      (P : A → Type κ) (Q : A → Type μ) (xs : List A) → ((x : A) → P x → Q x) → All P xs → All Q xs
  All-map P Q [] f h = tt
  All-map P Q (x ∷ xs) f h = (f x h.0, All-map P Q xs f h.1)

  -- A row that is found by its key has the key.
  pub find-key :
      (key : A → ℕ) (id : ℕ) (xs : List A) (a : A)
      → find (λ r. key r == id) xs ≡ some a
      → key a ≡ id
  find-key key id [] a e = cc
  find-key key id (x ∷ xs) a e = ground (arith, find-key key id xs a)

  -- A row that is written by its key, and keeps it, is then found as it was written.
  pub find-update :
      (key : A → ℕ) (f : A → A) (id k : ℕ) (xs : List A) (a : A)
      → ((x : A) → key x ≡ id → key (f x) ≡ id)
      → k ≡ id
      → find (λ r. key r == id) xs ≡ some a
      → find (λ r. key r == id) (update (λ r. key r == k) f xs) ≡ some (f a)
  find-update key f id k [] a keeps same e = cc
  find-update key f id k (x ∷ xs) a keeps same e =
      ground (arith, keeps x, find-update key f id k xs a keeps same)

  -- A write by one key leaves the rows of other keys.
  pub find-update_ne :
      (key : A → ℕ) (f : A → A) (id k : ℕ) (xs : List A)
      → ((x : A) → key x ≡ k → key (f x) ≡ k)
      → id ≢ k
      → find (λ r. key r == id) (update (λ r. key r == k) f xs) ≡ find (λ r. key r == id) xs
  find-update_ne key f id k [] keeps ne = refl
  find-update_ne key f id k (x ∷ xs) keeps ne =
      ground (arith, keeps x, find-update_ne key f id k xs keeps ne)

  pub find-append_some :
      (p : A → Bool) (xs ys : List A) (a : A) → find p xs ≡ some a → find p (xs ++ ys) ≡ some a
  find-append_some p [] ys a e = cc
  find-append_some p (x ∷ xs) ys a e = ground (arith, find-append_some p xs ys a)

  pub find-append_none :
      (p : A → Bool) (xs ys : List A) → find p xs ≡ none → find p (xs ++ ys) ≡ find p ys
  find-append_none p [] ys e = refl
  find-append_none p (x ∷ xs) ys e = ground (arith, find-append_none p xs ys)

  pub All-update {κ μ} :
      (P : A → Type κ) (Q : A → Type μ) (p : A → Bool) (f : A → A) (xs : List A)
      → ((x : A) → P x → Q (if p x then f x else x))
      → All P xs
      → All Q (update p f xs)
  All-update P Q p f [] h a = tt
  All-update P Q p f (x ∷ xs) h a = (h x a.0, All-update P Q p f xs h a.1)

-- `value in values`
abbrev pub contains : ℕ → List ℕ → Bool
contains v [] = false
contains v (x ∷ xs) = (v == x) || contains v xs

-- A row that is found stays found when the rows are written in a way that the test does not see.
pub find-map {ℓ} :
    {A : Type ℓ} (p q : A → Bool) (f : A → A) (xs : List A) (a : A)
    → ((x : A) → p (f x) ≡ p x)
    → find p xs ≡ some a
    → find p (update q f xs) ≡ some (if q a then f a else a)
find-map p q f [] a same e = absurd (ground arith)
find-map p q f (x ∷ xs) a same e = elim (Bool-cases (p x)) [
  | inl y ↦ elim (Bool-cases (q x)) [
    | inl z ↦ ground (arith, same x)
    | inr z ↦ ground (arith, same x)
  ]
  | inr n ↦ elim (Bool-cases (q x)) [
    | inl z ↦ ground (arith, same x, find-map p q f xs a same)
    | inr z ↦ ground (arith, find-map p q f xs a same)
  ]
]

pub find-true {ℓ} :
    {A : Type ℓ} (p : A → Bool) (xs : List A) (a : A) → find p xs ≡ some a → p a ≡ true
find-true p [] a e = absurd (ground arith)
find-true p (x ∷ xs) a e = ground (arith, find-true p xs a)

pub append_nil_right {ℓ} : {A : Type ℓ} (xs : List A) → xs ++ [] ≡ xs
append_nil_right [] = refl
append_nil_right (x ∷ xs) = cc (append_nil_right xs)
