-- ===== src/Events/Schema.antt =====
-- Readers of the fields that the models of shared_contracts/generated/events.py declare. What
-- pydantic makes of one plain value is a function of `Pydantic`.
use kosmohack_final.Quality.Records.{InspectionScope}
use kosmohack_final.Events.Json.{
  null, nil, number, item, boolean, object, is_null, get, only, get_or_null, text, array, Fields,
  Items, Json,
}
use kosmohack_final.Prelude.{
  length, leb, ◌-◌, [], ◌==◌, ◌∷◌, if◌then◌else◌, ℕ, List, Option, Text, Bool, some, none,
}

pub record Pydantic : Type 0 where
  -- A string of at least, and when there is a bound at most, so many characters.
  pub string : ℕ → Option ℕ → Json → Option Text
  -- An integer that is not below a bound.
  pub integer : ℕ → Json → Option ℕ
  -- A number that is not negative, in thousandths, and one between 0 and 1.
  pub amount : Json → Option ℕ
  pub fraction : Json → Option ℕ
  pub datetime : Json → Option ℕ
  -- An object or an array.
  pub scope : Json → Option InspectionScope

infixl 5 ◌>>=◌
abbrev pub ◌>>=◌ : {A B : Type 0} → Option A → (A → Option B) → Option B
none >>= f = none
some a >>= f = f a

-- The value if the test holds.
abbrev pub guard : {A : Type 0} → (A → Bool) → A → Option A
guard p a = if p a then some a else none

abbrev pub fields_of : Json → Option Fields
fields_of (object fs) = some fs
fields_of null = none
fields_of (boolean _) = none
fields_of (number _) = none
fields_of (text _) = none
fields_of (array _) = none

-- The fields of a model that forbids others.
abbrev pub model : List Text → Json → Option Fields
model keys value = fields_of value >>= guard (only keys)

abbrev pub required : {A : Type 0} → Text → (Json → Option A) → Fields → Option A
required key read fs = get key fs >>= read

abbrev pub nullable : {A : Type 0} → (Json → Option A) → Json → Option (Option A)
nullable read value = if is_null value then some none else read value >>= λ a. some (some a)

-- `A | None = None`
abbrev pub optional : {A : Type 0} → Text → (Json → Option A) → Fields → Option (Option A)
optional key read fs = nullable read (get_or_null key fs)

abbrev pub or_default : {A : Type 0} → A → (Json → Option A) → Option Json → Option A
or_default default read none = some default
or_default default read (some value) = read value

abbrev pub nth : {A : Type 0} → ℕ → List A → Option A
nth n [] = none
nth n (x ∷ xs) = if n == 1 then some x else nth (n - 1) xs

-- A `Literal`: its texts are numbered in the order in which they stand.
abbrev pub literal : {A : Type 0} → List A → Json → Option A
literal values (text t) = nth t values
literal values null = none
literal values (boolean _) = none
literal values (number _) = none
literal values (array _) = none
literal values (object _) = none

abbrev pub read_items : {A : Type 0} → (Json → Option A) → Items → Option (List A)
read_items read nil = some []
read_items read (item v vs) = do a ← read v; rest ← read_items read vs; some (a ∷ rest)

abbrev pub sequence_of : {A : Type 0} → (Json → Option A) → Json → Option (List A)
sequence_of read (array xs) = read_items read xs
sequence_of read null = none
sequence_of read (boolean _) = none
sequence_of read (number _) = none
sequence_of read (text _) = none
sequence_of read (object _) = none

module _ (p : Pydantic) where
  abbrev pub identifier : Json → Option Text
  identifier = p.string 1 (some 128)

  abbrev pub label : Json → Option Text
  label = p.string 1 (some 64)

  abbrev pub optional_identifier : Text → Fields → Option (Option Text)
  optional_identifier key = optional key (p.string 0 (some 128))

  -- `list[str]` of at most a hundred
  abbrev pub references : Text → Fields → Option (List Text)
  references key fs =
      or_default [] (λ v. sequence_of (p.string 0 none) v >>= guard (λ refs. leb (length refs) 100))
        (get key fs)
