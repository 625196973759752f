-- ===== src/Model/Backend.antt =====
-- rust/engine/crates/app_core/src/model/backend.rs: the health and the reachability of the backend.
use media_app.Prelude.{ℕ, String, Bool, Option, List}

pub record EngineDependencyStatus : Type 0 where
  pub name : String
  pub status : String
  pub message : String

pub record EngineBackendStatus : Type 0 where
  pub healthy : Bool
  pub version : String
  pub status : String
  pub dependencies : List EngineDependencyStatus
  pub checked_at_epoch_millis : Option ℕ

pub data BackendUnavailableReason : Type 0 where
  network_unavailable connection_failed timeout service_unavailable : BackendUnavailableReason

pub data BackendAvailability : Type 0 where
  connecting available : BackendAvailability
  unavailable : BackendUnavailableReason → BackendAvailability
