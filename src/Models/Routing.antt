-- ===== src/Models/Routing.antt =====
-- Routes, their revisions, the steps of a revision, and the trust policies of control points.
use kosmohack_final.Prelude.{Bool, Text, Option, ℕ, List}
use kosmohack_final.Quality.Records.{InspectionScope, ObservationQuality}

pub record RouteDefinition : Type 0 where
  pub id : ℕ
  pub code : Text
  pub name : Text
  pub active_revision_id : Option ℕ

pub data RevisionStatus : Type 0 where
  draft active superseded : RevisionStatus

pub record RouteRevision : Type 0 where
  pub id : ℕ
  pub route_id : ℕ
  pub revision : ℕ
  pub status : RevisionStatus
  pub immutable_after : Option ℕ
  pub created_by : Option ℕ

pub record RouteStep : Type 0 where
  pub route_revision_id : ℕ
  pub position : ℕ
  pub operation_id : Text
  pub operation_name : Text
  pub control_point_id : Option Text
  pub required_inspection : Bool
  pub inspection_scope : InspectionScope
  pub trust_policy_id : Option ℕ

-- Policies for conflicts have one value and are not read.
pub record TrustPolicy : Type 0 where
  pub id : ℕ
  pub policy_version : ℕ
  pub control_point_id : Text
  pub allowed_observation_quality : List ObservationQuality
  pub confidence_required : Bool
  pub min_confidence : Option ℕ
  pub requires_valid_device : Bool
  pub media_required : Bool
  pub active : Bool
