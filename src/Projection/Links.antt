-- ===== src/Projection/Links.antt =====
-- Lemmas on the rows of occurrences and nonconformances that backend/app/projections/rebuild.py links.
use kosmohack_final.Projection.Frame.{as_decided}
use kosmohack_final.Projection.Analyses.{new_id}
use kosmohack_final.Models.Quality.{DefectOccurrence, Nonconformance}
use kosmohack_final.Projection.{Tables}
use kosmohack_final.Prelude.{
  Bool-cases, ==_refl, Bool, update, ◌++◌, inr, ap, inl, refl, suc, [], map, length, arith, true,
  ◌∷◌, ◌≡◌, ◌==◌, find, ◌<◌, any, ℕ, List, All, some, none,
}

-- Each nonconformance belongs to an occurrence.
abbrev pub IsLinked : Tables → Type 0
IsLinked db = All (λ n. any (λ o. o.id == n.occurrence_id) db.occurrences ≡ true) db.nonconformances

pub any-new_id :
    (rows : List DefectOccurrence) (id : ℕ)
    → any (λ o. o.id == id) rows ≡ true
    → id < new_id (map (λ o. o.id) rows)
any-new_id [] id h = ground arith
any-new_id (o ∷ rows) id h = ground (arith, any-new_id rows id)

pub not_found :
    (id : ℕ) (rows : List Nonconformance)
    → All (λ n. n.occurrence_id < id) rows
    → find (λ n. n.occurrence_id == id) rows ≡ none
not_found id [] h = refl
not_found id (n ∷ rows) h = grind (arith, not_found id rows h.1, h.0)

pub length_decided :
    (xs ys : List Nonconformance) → map as_decided xs ≡ map as_decided ys → length xs ≡ length ys
length_decided [] [] e = refl
length_decided [] (y ∷ ys) e = absurd (ground arith)
length_decided (x ∷ xs) [] e = absurd (ground arith)
length_decided (x ∷ xs) (y ∷ ys) e = ap suc (length_decided xs ys (ap tail e))
  where
    tail : List Nonconformance → List Nonconformance
    tail [] = []
    tail (z ∷ zs) = zs

pub any→find :
    {A : Type 0} (p : A → Bool) (xs : List A) → any p xs ≡ true → (x : A) × (find p xs ≡ some x)
any→find p [] h = absurd (ground arith)
any→find p (x ∷ xs) h = elim (Bool-cases (p x)) [
  | inl here ↦ (x, rw here refl)
  | inr not_here ↦ rw not_here (any→find p xs (ground arith))
]

-- Whether a nonconformance belongs to the occurrence does not depend on its latest analysis.
pub any_decided :
    (id : ℕ) (xs : List Nonconformance)
    → any (λ n. n.occurrence_id == id) (map as_decided xs) ≡ any (λ n. n.occurrence_id == id) xs
any_decided id [] = refl
any_decided id (x ∷ xs) = rw (any_decided id xs) refl

pub any-last :
    (id : ℕ) (xs : List Nonconformance) (n : Nonconformance)
    → n.occurrence_id ≡ id
    → any (λ x. x.occurrence_id == id) (xs ++ n ∷ []) ≡ true
any-last id [] n e = ground (arith, ==_refl id)
any-last id (x ∷ xs) n e = ground (arith, any-last id xs n e)

-- A write that keeps identities keeps whether there is a row with an identity.
pub any-update_id :
    (id k : ℕ) (f : DefectOccurrence → DefectOccurrence) (xs : List DefectOccurrence)
    → ((o : DefectOccurrence) → (f o).id ≡ o.id)
    → any (λ o. o.id == k) (update (λ o. o.id == id) f xs) ≡ any (λ o. o.id == k) xs
any-update_id id k f [] same = refl
any-update_id id k f (x ∷ xs) same = ground (arith, same x, any-update_id id k f xs same)

pub any-append_left :
    (p : DefectOccurrence → Bool) (xs ys : List DefectOccurrence)
    → any p xs ≡ true
    → any p (xs ++ ys) ≡ true
any-append_left p [] ys h = absurd (ground arith)
any-append_left p (x ∷ xs) ys h = ground (arith, any-append_left p xs ys)

pub any_id-last :
    (id : ℕ) (xs : List DefectOccurrence) (o : DefectOccurrence)
    → o.id ≡ id
    → any (λ x. x.id == id) (xs ++ o ∷ []) ≡ true
any_id-last id [] o e = ground (arith, ==_refl id)
any_id-last id (x ∷ xs) o e = ground (arith, any_id-last id xs o e)

pub length-update :
    (p : DefectOccurrence → Bool) (f : DefectOccurrence → DefectOccurrence)
    (xs : List DefectOccurrence)
    → length (update p f xs) ≡ length xs
length-update p f [] = refl
length-update p f (x ∷ xs) = ground (arith, length-update p f xs)

-- A property of the occurrence that a nonconformance belongs to does not depend on its latest analysis.
pub All-decided :
    (P : ℕ → Type 0) (xs : List Nonconformance)
    → All (λ n. P n.occurrence_id) xs
    → All (λ n. P n.occurrence_id) (map as_decided xs)
All-decided P [] h = tt
All-decided P (x ∷ xs) h = (h.0, All-decided P xs h.1)

pub decided-All :
    (P : ℕ → Type 0) (xs : List Nonconformance)
    → All (λ n. P n.occurrence_id) (map as_decided xs)
    → All (λ n. P n.occurrence_id) xs
decided-All P [] h = tt
decided-All P (x ∷ xs) h = (h.0, decided-All P xs h.1)
