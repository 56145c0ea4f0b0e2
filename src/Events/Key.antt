-- ===== src/Events/Key.antt =====
-- The names of the fields of an event in JSON, backend/app/domain/events.py and
-- shared_contracts/generated/events.py: each is a text of its own.
use kosmohack_final.Prelude.{Text}

abbrev pub event_id : Text
event_id = 1

abbrev pub event_type : Text
event_type = 2

abbrev pub schema_version : Text
schema_version = 3

abbrev pub occurred_at : Text
occurred_at = 4

abbrev pub source : Text
source = 5

abbrev pub item_id : Text
item_id = 6

abbrev pub operation_run_id : Text
operation_run_id = 7

abbrev pub payload : Text
payload = 8

abbrev pub source_id : Text
source_id = 9

abbrev pub source_type : Text
source_type = 10

abbrev pub sequence : Text
sequence = 11

abbrev pub value : Text
value = 12

abbrev pub unit : Text
unit = 13

abbrev pub meaning : Text
meaning = 14

abbrev pub defect_type : Text
defect_type = 15

abbrev pub description : Text
description = 16

abbrev pub severity : Text
severity = 17

abbrev pub component_instance_id : Text
component_instance_id = 18

abbrev pub product_definition_id : Text
product_definition_id = 19

abbrev pub revision : Text
revision = 20

abbrev pub line_id : Text
line_id = 21

abbrev pub route_id : Text
route_id = 22

abbrev pub route_revision : Text
route_revision = 23

abbrev pub operation_id : Text
operation_id = 24

abbrev pub operator_id : Text
operator_id = 25

abbrev pub equipment_id : Text
equipment_id = 26

abbrev pub station_id : Text
station_id = 27

abbrev pub parameters : Text
parameters = 28

abbrev pub previous_operation_run_id : Text
previous_operation_run_id = 29

abbrev pub run_reason : Text
run_reason = 30

abbrev pub rework_for_nonconformance_id : Text
rework_for_nonconformance_id = 31

abbrev pub completion_status : Text
completion_status = 32

abbrev pub duration : Text
duration = 33

abbrev pub stop_reason : Text
stop_reason = 34

abbrev pub inspection_result : Text
inspection_result = 35

abbrev pub observation_quality : Text
observation_quality = 36

abbrev pub control_point_id : Text
control_point_id = 37

abbrev pub confidence : Text
confidence = 38

abbrev pub inspection_scope : Text
inspection_scope = 39

abbrev pub defects : Text
defects = 40

abbrev pub evidence_refs : Text
evidence_refs = 41

abbrev pub control_device_id : Text
control_device_id = 42

abbrev pub capture_session_id : Text
capture_session_id = 43

abbrev pub state : Text
state = 44

abbrev pub code : Text
code = 45

abbrev pub action_type : Text
action_type = 46

abbrev pub device_id : Text
device_id = 47

abbrev pub affected_from : Text
affected_from = 48

abbrev pub affected_to : Text
affected_to = 49

abbrev pub reason : Text
reason = 50

abbrev pub invalidation_type : Text
invalidation_type = 51

abbrev pub supporting_evidence_refs : Text
supporting_evidence_refs = 52

abbrev pub duration_seconds : Text
duration_seconds = 53
