-- ===== src/Escalate.antt =====
-- src/escalate/escalate.ts: the escalation artifact, its parser, and its delivery.
pub mod Body
pub mod RoundTrip
pub mod Delivery
pub mod Delivered
