-- ===== src/Tpm.antt =====
-- tpm/tpm.go: the backend that signs with the TPM.
pub mod KeyHandle
pub mod Backend
