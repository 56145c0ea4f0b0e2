-- ===== src/Projection.antt =====
-- The rebuild of an item's projection from the raw log, backend/app/projections/rebuild.py: its
-- tables. Decryption, the JSON reader and UUIDs are functions of `Environment`. A rebuild holds
-- the item's advisory lock to its end, so it is one step.
pub mod Replay
pub mod Conflicts
pub mod Rows
pub mod Analyses
pub mod Defects
pub mod Rebuild
pub mod ReadBack
pub mod Ordering
pub mod Opposed
pub mod Frame
pub mod Plan
pub mod Decisions
pub mod Recovered
pub mod Versions
pub mod Recovery
pub mod Repeated
pub mod Links
pub mod Reopened
pub mod Linking
pub mod Narrowing
use kosmohack_final.Prelude.{ℕ, Text, Option, List}
use kosmohack_final.Models.Log.{RawEvent, ProjectionState, ControlDeviceInvalidation, Bytes}
use kosmohack_final.Models.Quality.{
  Item, OperationRun, Observation, DefectObservation, MachineEvent, OperatorAction,
  DefectOccurrence, Nonconformance, AnalysisVersion, AnalysisEvidence, ProductStructureSnapshot,
}
use kosmohack_final.Models.Routing.{RouteDefinition, RouteRevision, RouteStep, TrustPolicy}
use kosmohack_final.Events.{EventEnvelope}
use kosmohack_final.Session.{TraceqError}
use kosmohack_final.Ingestion.{AssociatedData}

pub record Environment : Type 0 where
  -- `none` is an exception: the ciphertext or its associated data was tampered with.
  pub decrypt_event : Bytes → Bytes → AssociatedData → Option Bytes
  -- The event of its canonical JSON.
  pub loads : Bytes → Option EventEnvelope
  -- `uuid.uuid5` in the namespace of observations
  pub uuid5 : Text → ℕ
  -- `uuid.UUID(text)`; `none` is a ValueError.
  pub parse_uuid : Text → Option ℕ
  -- The first characters of a text, and what an exception says.
  pub prefix : ℕ → Text → Text
  pub describe : TraceqError → Text

pub record Tables : Type 0 where
  pub projections : List ProjectionState
  pub raw_events : List RawEvent
  pub policies : List TrustPolicy
  pub invalidations : List ControlDeviceInvalidation
  pub items : List Item
  pub snapshots : List ProductStructureSnapshot
  pub routes : List RouteDefinition
  pub revisions : List RouteRevision
  pub steps : List RouteStep
  pub operation_runs : List OperationRun
  pub observations : List Observation
  pub defects : List DefectObservation
  pub machine_events : List MachineEvent
  pub operator_actions : List OperatorAction
  pub occurrences : List DefectOccurrence
  pub nonconformances : List Nonconformance
  pub analyses : List AnalysisVersion
  pub evidence : List AnalysisEvidence
