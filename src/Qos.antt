-- ===== src/Qos.antt =====
-- The package qos: QoS rules and QoS flow descriptions, as they are built and encoded, and the update
-- of the policy data of a session.
pub mod Types
pub mod FlowDesc
pub mod Filters
pub mod Rules
pub mod Encode
pub mod Wire
pub mod RoundTrip
pub mod FilterLengths
pub mod FlowTypes
pub mod Flows
pub mod FlowLengths
pub mod Changes
pub mod Policy
pub mod PolicyLaws
pub mod Decisions
pub mod FlowWire
pub mod BitRates
