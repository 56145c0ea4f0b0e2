-- ===== src/Models/Delivery.antt =====
-- The outbox and the records of its delivery.
use kosmohack_final.Prelude.{ℕ, Text, Option}
use kosmohack_final.Models.Quality.{Verdict, Disposition, Containment}

-- The payload that `OutboundReleasePolicy.create_result` builds.
pub record ResultPayload : Type 0 where
  pub message_id : Text
  pub item_id : Text
  pub nonconformance_id : ℕ
  pub decision_id : ℕ
  pub verdict : Verdict
  pub disposition : Disposition
  pub containment : Containment
  pub decided_at : ℕ

pub record QualityResult : Type 0 where
  pub message_id : Text
  pub decision_id : ℕ
  pub item_id : Text
  pub payload : ResultPayload

pub data OutboxState : Type 0 where
  pending retrying delivered failed : OutboxState

pub data LastError : Type 0 where
  http : ℕ → LastError
  timeout_exception network_error correlation_mismatch invalid_json : LastError

pub record OutboxMessage : Type 0 where
  pub message_id : Text
  pub destination : Text
  pub payload : ResultPayload
  pub state : OutboxState
  pub attempts : ℕ
  pub next_attempt_at : ℕ
  pub last_error : Option LastError
  pub created_at : ℕ
  pub delivered_at : Option ℕ

pub record IntegrationMessage : Type 0 where
  pub message_id : Text
  pub external_system : Text
  pub status : OutboxState

pub data HealthStatus : Type 0 where
  healthy degraded unavailable : HealthStatus

pub record IntegrationHealth : Type 0 where
  pub integration_id : Text
  pub status : HealthStatus
  pub last_success_at : Option ℕ
  pub last_error_at : Option ℕ
  pub safe_error : Option Text

pub record WorkerHeartbeat : Type 0 where
  pub worker_id : Text
  pub heartbeat_at : ℕ
  pub status : HealthStatus
