-- ===== src/Projection/Plan.antt =====
-- What the registration of an item in backend/app/projections/rebuild.py leaves alone.
use kosmohack_final.Projection.Replay.{ItemValue}
use kosmohack_final.Models.Quality.{Item}
use kosmohack_final.Projection.Rows.{new_item, rewrite_item, get_item, write_item, register_item}
use mathlib.Core.Bool.{false}
use kosmohack_final.Projection.{Tables}
use kosmohack_final.Prelude.{
  find-map, [], ◌∷◌, true, ◌==◌, refl, find-append_some, if◌then◌else◌, Option, ◌≡◌, Bool, Text,
  some, none,
}

written_frame :
    (item_id : Text) (value : ItemValue) (i : Option Item) (db : Tables)
    → let db' = write_item item_id value i db in
      (db'.projections ≡ db.projections) × (db'.nonconformances ≡ db.nonconformances)
written_frame item_id value none db = (refl, refl)
written_frame item_id value (some i) db = (refl, refl)

pub register_item-frame :
    (item_id : Text) (o : Option ItemValue) (db : Tables)
    → let db' = register_item item_id o db in
      (db'.projections ≡ db.projections) × (db'.nonconformances ≡ db.nonconformances)
unfolding register_item
register_item-frame item_id none db = (refl, refl)
register_item-frame item_id (some value) db = written_frame item_id value (get_item item_id db) db

-- What an item that is there keeps.
abbrev pub KeepsPlan : Item → Item → Type 0
KeepsPlan i j =
    (j.route_revision_id ≡ i.route_revision_id)
    × (j.status ≡ i.status)
    × (j.structure_status ≡ i.structure_status)
    × (j.registered_at ≡ i.registered_at)

if-KeepsPlan :
    (b : Bool) (value : ItemValue) (i : Item) → KeepsPlan i (if b then rewrite_item value i else i)
if-KeepsPlan true value i = (refl, refl, refl, refl)
if-KeepsPlan false value i = (refl, refl, refl, refl)

written_item :
    (item_id k : Text) (value : ItemValue) (o : Option Item) (i : Item) (db : Tables)
    → get_item k db ≡ some i
    → (j : Item) × (get_item k (write_item item_id value o db) ≡ some j) × KeepsPlan i j
written_item item_id k value none i db e = (
  i,
  find-append_some (λ x. x.item_id == k) db.items (new_item item_id value db ∷ []) i e,
  (refl, refl, refl, refl),
)
written_item item_id k value (some x) i db e = (
  (if i.item_id == item_id then rewrite_item value i else i),
  find-map (λ x. x.item_id == k) (λ x. x.item_id == item_id) (rewrite_item value) db.items i
      (λ y. refl) e,
  if-KeepsPlan (i.item_id == item_id) value i,
)

pub register_item-plan :
    (item_id k : Text) (o : Option ItemValue) (i : Item) (db : Tables)
    → get_item k db ≡ some i
    → (j : Item) × (get_item k (register_item item_id o db) ≡ some j) × KeepsPlan i j
unfolding register_item
register_item-plan item_id k none i db e = (i, e, (refl, refl, refl, refl))
register_item-plan item_id k (some value) i db e =
    written_item item_id k value (get_item item_id db) i db e
