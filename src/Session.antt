-- ===== src/Session.antt =====
-- context/sm_context.go and context/gsm_handler.go: the choice of a PDU session's type.
pub mod Types
pub mod Grants
