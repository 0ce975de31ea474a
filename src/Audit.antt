-- ===== src/Audit.antt =====
-- src/audit/types.ts: the events that every component emits, and the emitter that it is given.
-- An absent emitter (`audit?.emit(…)`) is one that does nothing.
pub mod Dispatcher
use authenik8_core_beta.Common.{Option}
use authenik8_core_beta.Common.Text.{Text}
use authenik8_core_beta.Common.Value.{Fields}
use authenik8_core_beta.Common.Effects.Async.{M}

pub data AuthAuditEventType : Type 0 where
  access_token_issued access_token_rejected refresh_token_issued refresh_token_rotated
        refresh_token_replay_detected refresh_token_concurrent_use_detected guest_token_issued
        authorization_denied session_revoked session_revoked_all session_quarantined
        session_quarantine_released session_risk_detected oauth_state_created oauth_state_rejected
        oauth_state_consumed oauth_user_created oauth_provider_linked oauth_provider_link_rejected
        agent_token_issued agent_token_rejected agent_revoked agent_activated security_ip_added
        security_ip_removed security_ip_denied security_rate_limited :
      AuthAuditEventType

pub data AuditSeverity : Type 0 where
  info warning critical : AuditSeverity

pub data AuditOutcome : Type 0 where
  success denied failure : AuditOutcome

pub data ActorType : Type 0 where
  user agent guest system unknown : ActorType

pub record AuditActor : Type 0 where
  pub type : ActorType
  pub id : Option Text

pub record AuditEventInput : Type 0 where
  pub type : AuthAuditEventType
  pub severity : AuditSeverity
  pub outcome : AuditOutcome
  pub actor : AuditActor
  pub subject : Option AuditActor
  pub session_id : Option Text
  pub tenant_id : Option Text
  pub correlation_id : Option Text
  pub metadata : Fields

-- `AuditEmitter.emit`, over the state `S` of the world.
abbrev pub AuditEmitter : Type 0 → Type 0
AuditEmitter S = AuditEventInput → M S (Unit {0})
