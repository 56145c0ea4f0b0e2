-- ===== src/Projection/Linking.antt =====
-- The query for an open occurrence in backend/app/projections/rebuild.py beside the rule of
-- backend/app/quality/occurrence.py.
use kosmohack_final.Models.Quality.{DefectOccurrence}
use kosmohack_final.Quality.Occurrence.{can_link_occurrence, defect_key, component_or_item, is_open}
use kosmohack_final.Projection.Defects.{find_open}
use kosmohack_final.Prelude.{
  non_empty, All, true, false, ◌==◌, ◌&&◌, Option, some, none, Text, ◌≡◌, find, select, List, [],
  ◌∷◌, opt_eq, refl, arith,
}

-- A component that is named, has a name of its own: not the empty one, and not that of the item.
abbrev pub IsDistinct : Text → Option Text → Type 0
IsDistinct item_id none = Unit {0}
IsDistinct item_id (some component) =
    (non_empty component ≡ true) × ((component == item_id) ≡ false)

same_component :
    (item_id : Text) (a b : Option Text)
    → IsDistinct item_id a
    → IsDistinct item_id b
    → (component_or_item item_id a == component_or_item item_id b) ≡ opt_eq a b
same_component item_id none none p q = ground arith
same_component item_id none (some b) p q = ground arith
same_component item_id (some a) none p q = ground arith
same_component item_id (some a) (some b) p q = ground arith

module _ (item_id defect_type : Text) (component : Option Text)
    (named : IsDistinct item_id component) where
  row_links :
      (o : DefectOccurrence)
      → (o.item_id == item_id) ≡ true
      → IsDistinct item_id o.component_instance_id
      → ((o.defect_type == defect_type)
          && (opt_eq o.component_instance_id component && is_open o.status))
        ≡ can_link_occurrence o item_id defect_type component
  unfolding can_link_occurrence defect_key
  row_links o same distinct =
      ground (arith, same_component item_id o.component_instance_id component)

  -- The rebuild links a reading of an item to the first occurrence, among those of the item, that
  -- the rule of `can_link_occurrence` allows, as long as components do not bear the name of the
  -- item or the empty one.
  pub open_by_rule :
      (rows : List DefectOccurrence)
      → All (λ o. IsDistinct item_id o.component_instance_id) rows
      → find_open item_id defect_type component rows
        ≡ find
            (λ o. can_link_occurrence o item_id defect_type component)
            (select (λ o. o.item_id == item_id) rows)
  open_by_rule [] distinct = refl
  open_by_rule (o ∷ os) distinct = ground (arith, row_links o, open_by_rule os)
