-- ===== src/Shared/Events.antt =====
-- packages/shared/src/events.ts and packages/shared/src/alerts.ts: the messages of the live
-- namespace.
use Prim.Native.String
use core_dashboard.Prelude.{ℕ, String, Bool, Option, List, Text}

pub data ContainerStatus : Type 0 where
  created running paused restarting exited dead : ContainerStatus

pub data ContainerHealth : Type 0 where
  healthy unhealthy starting no_health : ContainerHealth

-- An observed container of the compose stack; times are epoch milliseconds.
pub record ServiceState : Type 0 where
  pub id : String
  pub name : String
  pub service : String
  pub project : String
  pub image : String
  pub status : ContainerStatus
  pub health : ContainerHealth
  pub started_at : Option ℕ
  pub uptime_sec : Option ℕ

pub record StateSnapshot : Type 0 where
  pub services : List ServiceState
  pub generated_at : ℕ

pub data ContainerLifecycleAction : Type 0 where
  start die stop kill restart pause unpause health_status : ContainerLifecycleAction

pub record ServiceUpdate : Type 0 where
  pub service : String
  pub state : ServiceState
  pub occurred_at : ℕ
  pub action : ContainerLifecycleAction
  pub exit_code : Option ℕ

unfoldable pub service_key : String → String → String
service_key project service = String.◌++◌ project (String.◌++◌ "." service)

unfoldable pub service_room : String → String
service_room key = String.◌++◌ "service:" key

pub data FrameSource : Type 0 where
  stdout stderr : FrameSource

pub record LogLine : Type 0 where
  pub ts : Text
  pub source : FrameSource
  pub text : Text

pub record LogsBatch : Type 0 where
  pub container : String
  pub lines : List LogLine
  pub dropped : ℕ

pub record LogsAck : Type 0 where
  pub ok : Bool
  pub error : Option String

pub data AlertType : Type 0 where
  deploy resource_alert container_down container_restarted job_dlq : AlertType
