-- ===== src/Quality/Occurrence.antt =====
-- Which occurrence of a defect a reading belongs to, backend/app/quality/occurrence.py.
use kosmohack_final.Models.Quality.{DefectOccurrence, OccurrenceStatus}
use kosmohack_final.Prelude.{
  non_empty, Bool, true, false, ◌==◌, ◌&&◌, if◌then◌else◌, Option, some, none, Text,
}

abbrev pub is_open : OccurrenceStatus → Bool
is_open OccurrenceStatus.open_occurrence = true
is_open OccurrenceStatus.closed_occurrence = false

-- `component_instance_id or item_id`: the empty text counts as no component.
abbrev pub component_or_item : Text → Option Text → Text
component_or_item item_id none = item_id
component_or_item item_id (some component) = if non_empty component then component else item_id

unfoldable pub defect_key : Text → Text → Option Text → Text × Text
defect_key item_id defect_type component = (component_or_item item_id component, defect_type)

abbrev pub same_key : Text × Text → Text × Text → Bool
same_key a b = (a.0 == b.0) && (a.1 == b.1)

unfoldable pub can_link_occurrence : DefectOccurrence → Text → Text → Option Text → Bool
can_link_occurrence o item_id defect_type component =
    if is_open o.status
    then same_key (defect_key o.item_id o.defect_type o.component_instance_id)
        (defect_key item_id defect_type component)
    else false
