-- ===== src/Fidohid.antt =====
-- fidohid/fidohid.go: the CTAPHID protocol over a virtual HID device.
pub mod Running
pub mod Cmd
pub mod Err
pub mod Packet
pub mod Channels
pub mod Device
pub mod Handlers
pub mod Cbor
pub mod Cleanup
pub mod Parsing
pub mod Sending
pub mod Invariant
pub mod Continuation
pub mod Reassembly
pub mod Cancel
pub mod Lifecycle
pub mod Faults
pub mod Allocation
pub mod Run
