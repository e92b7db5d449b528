-- ===== src/Lib.antt =====
-- BlueRipple Passkey: a software FIDO2 security key that a TPM and a fingerprint reader back.
--
-- The program is a daemon. It creates a virtual HID device through uhid (fidohid), puts the 64-byte
-- reports of the host together to CTAPHID messages, and hands CBOR commands to a CTAP2 handler
-- (ctap2). The handler keeps discoverable credentials in a file, asks for a fingerprint
-- (userpresence) and signs through a backend (tpm or memory), whose key handles are written with a
-- small record codec (internal/lencode). A tray icon and a USB monitor switch the device on and off
-- (main.go, tray, usbmon).
--
-- Files:
--   Prelude      shared names, Boolean tests, lists of bytes, big-endian words, Go's maps with byte
--                keys (Dict), the integers that COSE algorithm numbers need (Int), Go's text
--                functions (Strings), how a call of a backend ends (Outcome)
--   Lencode      internal/lencode/lencode.go: NewEncoder is new_encoder, Encode is encode,
--                NewDecoder is new_decoder, Decode is decode, DecodeInto is decode_into, NextLen is
--                next_len. A method takes the codec's state and returns the state it leaves.
--   Tpm          tpm/tpm.go: KeyHandle is the key handle, as RegisterKey writes it and SignASN1 reads
--                it, Backend has RegisterKey, SignASN1 and Counter with their deferred calls
--   Memory       memory/memory.go: New, RegisterKey, SignASN1 and Counter. Wrapping is proofs.
--   Fidohid      fidohid/fidohid.go: Packet has the constants and the reports of sendResponse,
--                Channels the map of channels, Device the device with allocateCID, sendResponse and
--                dispatchCommand, Handlers handleOutput and what it calls, Cbor handleCBOR, Cleanup
--                cleanupChannels and Close, Run the event loop. The other files are proofs.
--   Ctap2        ctap2: Types, Status and Command are types.go and commands.go, AuthData is
--                authenticatordata.go, Storage is storage.go, Handler is the state and the interface
--                of ctap2.go, MakeCredential and GetAssertion are the files of these names, Commands
--                is HandleCommand and GetInfo. Policy, Resident and Paging are proofs.
--   Userpresence userpresence/userpresence.go: trustedExecutable, trustedSystemOwner, hostUIDMapped;
--                Requests is ConfirmPresence with the goroutines of promptFingerprint
--   Config       configuredRPIDs and validRPID of main.go, in ASCII text. Names, Order and Configured
--                are proofs.
--   Startup      main of main.go up to runDaemonMode with runChecks and credentialStoragePath, and
--                userpresence.New. Migration and Preflight are proofs.
--   Daemon       runDaemonWithTray of main.go with the clicks of tray/tray.go and the polls of
--                usbmon/usbmon.go, each callback as one step; Sections splits them into what runs
--                under the mutex. Guard, which is of callbacks that do not interleave, Devices,
--                Atomic and Serial are proofs.
--   Usbmon       usbmon/usbmon.go: scan and Run. Polls is proofs.
--   Tray         tray/tray.go: the menu and what sets it. Titles is proofs.
--   Authenticator the parts together: the handler over a history of commands, and handleCBOR's
--                goroutine with the handler that it calls; Software gives the handler the memory
--                backend. Sites, Enumerations and Exchange are proofs.
--   Tests        runs of the model on concrete inputs
--
-- The model. State is passed from call to call. A report is one step, and the part of handleInit in
-- front of the point where it gives the lock back and the part behind it are steps of their own as
-- well; a goroutine of handleCBOR is a start and a list of the events that its select loop takes,
-- so that these steps interleave with reports, with the cleanup and with Close in any order
-- (Fidohid.Lifecycle). A cancel function is the number of the context that it cancels, and the
-- device records which were called through a channel. Times and random bytes are arguments. The
-- uhid library's InjectEvent, the signer, the presence check, SHA-256, CBOR and the writing of the
-- file are parameters; Ctap2.Handler.Env is the interface of the CTAP2 handler to them, with a
-- state of their own that every call may change. The TPM backend's calls of go-tpm are the fields
-- of Tpm.Backend.Library, those of Go's cryptography that the memory backend makes are the fields
-- of Memory.Library, with IsGcm and IsSource for what they are documented to do, and what main asks
-- of the operating system is Startup.Machine. The TPM backend's world records the calls that take
-- something of the TPM, where they succeed, and those that give it back, whether or not they
-- succeed, since the code ignores their errors. The files that userpresence looks at are
-- Userpresence.FileSystem. A request of userpresence is known by its number; its goroutine is a
-- stage that events move on. Startup.Machine says for which paths os.Stat fails though the file is
-- there.
--
-- Fuel. cont_packets and send_cont run on fuel, which is the length of the data: every round takes at
-- least one byte. allocate_cid runs over the list of draws and gives nothing if none of them serves;
-- the result on its totality says which draw ends it.
--
-- Machine integers. Sequence numbers wrap at 256, lengths and counters at 16 and 32 bits where the
-- source converts them; everything else stays within its type by the bounds that are proved.
--
-- Not modelled: what go-tpm and the cryptography do behind their calls, the prompt and the verifier
-- that userpresence runs, the parsing of flags, text beyond ASCII in the configuration, the creation
-- of the uhid device, the headless mode, logging, and concurrent calls of one CTAP2 handler,
-- which the source does not lock.
pub mod Prelude
pub mod Lencode
pub mod Tpm
pub mod Memory
pub mod Fidohid
pub mod Ctap2
pub mod Userpresence
pub mod Config
pub mod Startup
pub mod Daemon
pub mod Usbmon
pub mod Tray
pub mod Authenticator
pub mod Tests
