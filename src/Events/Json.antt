-- ===== src/Events/Json.antt =====
-- The values that Python reads from JSON: what backend/app/domain/events.py gets. The keys of an
-- object are distinct.
use kosmohack_final.Prelude.{
  ◌&&◌, non_empty, ◌==◌, not, contains, ℕ, Option, if◌then◌else◌, true, false, List, Text, Bool,
  some, none,
}

mutual
  -- A number is known by a code; zero has the code 0.
  pub data Json : Type 0 where
    null : Json
    boolean : Bool → Json
    number : ℕ → Json
    text : Text → Json
    array : Items → Json
    object : Fields → Json

  pub data Items : Type 0 where
    nil : Items
    item : Json → Items → Items

  pub data Fields : Type 0 where
    end : Fields
    entry : Text → Json → Fields → Fields

abbrev pub get : Text → Fields → Option Json
get key end = none
get key (entry k v fs) = if k == key then some v else get key fs

-- `fields.get(key)`
abbrev pub get_or_null : Text → Fields → Json
get_or_null key fs = elim (get key fs) [ none ↦ null | some v ↦ v ]

-- `fields[key] = value`
abbrev pub set : Text → Json → Fields → Fields
set key value end = entry key value end
set key value (entry k v fs) =
    let rest = set key value fs in if k == key then entry key value fs else entry k v rest

-- `fields.pop(key, None)`, without its value
abbrev pub remove : Text → Fields → Fields
remove key end = end
remove key (entry k v fs) = let rest = remove key fs in if k == key then fs else entry k v rest

abbrev pub is_null : Json → Bool
is_null null = true
is_null _ = false

abbrev pub no_items : Items → Bool
no_items nil = true
no_items (item _ _) = false

abbrev pub no_fields : Fields → Bool
no_fields end = true
no_fields (entry _ _ _) = false

-- `bool(value)`
abbrev pub is_true : Json → Bool
is_true null = false
is_true (boolean b) = b
is_true (number n) = not (n == 0)
is_true (text t) = non_empty t
is_true (array xs) = not (no_items xs)
is_true (object fs) = not (no_fields fs)

-- Every key is one of those: `extra="forbid"`.
abbrev pub only : List Text → Fields → Bool
only keys end = true
only keys (entry k v fs) = contains k keys && only keys fs
