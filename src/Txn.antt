-- ===== src/Txn.antt =====
-- transaction/transaction.go and fsm/txnFsm.go: the life cycle of a transaction, and the bus of an SM
-- context on which transactions wait for the one that is active. Types holds the data, Handlers the
-- stages, LifeCycle the loop; the other children prove what comes of them.
pub mod Types
pub mod Handlers
pub mod LifeCycle
pub mod Bus
pub mod Rounds
pub mod Drain
pub mod Requests
