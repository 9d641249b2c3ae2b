-- ===== src/Examples.antt =====
-- Tests of the model on concrete data, and instances of its theorems.
mod Ipam
mod Fsm
mod Txn
mod Rules
mod Policy
mod Topo
mod Upf
mod Paths
mod Pfcp
mod Session
mod Activation
