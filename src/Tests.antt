-- ===== src/Tests.antt =====
-- Runs of the model on concrete inputs, and the theorems at concrete inputs.
mod HidTests
mod CodecTests
mod ConfigTests
mod StartupTests
mod AuthenticatorTests
mod MemoryTests
mod StorageTests
mod HandlerTests
mod DaemonTests
mod SectionsTests
mod UsbmonTests
mod TrayTests
mod BackendTests
mod PresenceTests
