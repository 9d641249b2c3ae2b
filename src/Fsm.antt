-- ===== src/Fsm.antt =====
-- fsm/handler.go, with SMContextState of context/sm_context.go: the state machine of an SM context.
-- Handlers is the table of handlers and HandleEvent; Edges proves which transitions they make.
pub mod Handlers
pub mod Edges
