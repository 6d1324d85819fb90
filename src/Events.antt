-- ===== src/Events.antt =====
-- shared/events: the domain events, shared/domain/AggregateRoot.ts, and the in-memory bus.
use reconbanker.Common.{ℕ, String, Num}

-- shared/events/events/*.event.ts: the aggregate's id first. The time of occurrence is left out.
pub data DomainEvent : Type 0 where
  transaction_ingested : (tx_id account_id : String) → Num → (currency : String) → ℕ → DomainEvent
  conciliation_matched : (request_id account_id bank_transaction_id : String) → DomainEvent
  conciliation_failed : (request_id account_id reason : String) → DomainEvent
  conciliation_expired : (request_id account_id : String) → DomainEvent
  conciliation_cancelled : (request_id account_id : String) → DomainEvent
  script_promoted : (script_id bank flow_type version : String) → DomainEvent

abbrev pub event_type : DomainEvent → String
event_type (transaction_ingested _ _ _ _ _) = "TransactionIngested"
event_type (conciliation_matched _ _ _) = "ConciliationMatched"
event_type (conciliation_failed _ _ _) = "ConciliationFailed"
event_type (conciliation_expired _ _) = "ConciliationExpired"
event_type (conciliation_cancelled _ _) = "ConciliationCancelled"
event_type (script_promoted _ _ _ _) = "ScriptPromoted"
