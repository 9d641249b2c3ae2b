-- ===== src/Pfcp.antt =====
-- pfcp/udp: the transactions that send PFCP requests and responses, and the tables that match a message
-- with its transaction. pfcp/message/build.go and producer/datapath.go: the session requests.
pub mod Transactions
pub mod Server
pub mod Rounds
pub mod Tables
pub mod LifeCycle
pub mod Messages
pub mod Requests
pub mod Sending
pub mod Closed
pub mod Established
pub mod Returns
pub mod Sessions
pub mod Repeats
