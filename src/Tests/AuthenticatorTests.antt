-- ===== src/Tests/AuthenticatorTests.antt =====
-- Runs of the parts together.
use blueripple_passkey.Prelude.{
  replicate, length, length-replicate, ℕ, ◌≡◌, refl, ◌++◌, Bool, true, false, none, some, inl, List,
  [], ◌∷◌, Bytes, arith, bytes_eq,
}
use blueripple_passkey.Ctap2.Status
use blueripple_passkey.Ctap2.Types.{MakeCredentialRequest}
use blueripple_passkey.Ctap2.Handler.{
  Env, Handler, answered, is_rp_id_allowed, contains, can_sign, encoded, presence_status,
}
use blueripple_passkey.Ctap2.MakeCredential.{
  make_credential, check_excluded, confirm_and_register, registered, attest, es256_supported,
}
use blueripple_passkey.Ctap2.GetAssertion.{handle_get_next_assertion}
use blueripple_passkey.Ctap2.Commands.{new_handler, handle_command}
use blueripple_passkey.Config.{values_of}
use blueripple_passkey.Startup.{rp_id_environment}
use blueripple_passkey.Fidohid.Cmd
use blueripple_passkey.Fidohid.Packet.{packets}
use blueripple_passkey.Fidohid.Device.{Device, new_device}
use blueripple_passkey.Fidohid.Continuation.{receive}
use blueripple_passkey.Fidohid.Sending.{inject_all}
use blueripple_passkey.Authenticator.{run_commands, run_cbor}
use blueripple_passkey.Authenticator.Sites.{ServesConfigured, served_site}
use blueripple_passkey.Authenticator.Exchange.{
  keepalives, reply_reports, HasAnswered, command_answered,
}
use blueripple_passkey.Authenticator.Software.{memory_env, memory-SignsOwn}
use blueripple_passkey.Ctap2.Resident.{SignsOwn}
use blueripple_passkey.Tests.MemoryTests.{library, gcm, source}
use blueripple_passkey.Tests.StartupTests.{machine, settings, running, site, runs}
use blueripple_passkey.Tests.HandlerTests.{env, handler, make}

abbrev history : List (ℕ × Bytes)
history = (4, []) ∷ (8, []) ∷ []

abbrev make_here : MakeCredentialRequest
make_here = record make { rp = record { id = site; name = [] } }

abbrev used : Handler ℕ
used = run_commands env (new_handler env 0 none running.rp_ids) history

made_here : (make_credential env used make_here).1.0 ≡ Status.success
unfolding run_commands new_handler handle_command make_credential is_rp_id_allowed contains
    es256_supported check_excluded can_sign confirm_and_register registered attest encoded
    presence_status bytes_eq handle_get_next_assertion
made_here = refl

served_site_example :
    ServesConfigured env
      (values_of [] (rp_id_environment machine))
      used
      (inl (make_here, made_here))
served_site_example =
    served_site env machine settings running runs 0 none history (inl (make_here, made_here))

abbrev Log : Type 0
Log = List Bytes

abbrev inject : Log → Bytes → Log × Bool
inject log b = (log ++ b ∷ [], false)

abbrev no_reports : Log
no_reports = []

abbrev device : Device Log
device = new_device no_reports

-- GetInfo on channel 5, answered after two ticks.
command_answered_example :
    (d' : Device Log) × (receive inject [] 9 device (packets 5 Cmd.cbor (4 ∷ [])) ≡ some d')
    × (d'.started ≡ device.started ++ (5, 4 ∷ []) ∷ [])
    × ((run_cbor env inject d' handler 10 3 5 2 (4 ∷ [])).1 ≡ (handle_command env handler 4 []).0)
    × HasAnswered (run_cbor env inject d' handler 10 3 5 2 (4 ∷ [])).0 5 (
        inject_all inject
          (keepalives inject 5 2 device.dev)
          (reply_reports inject env handler 5 4 []))
command_answered_example =
    command_answered inject env device handler [] 9 10 3 5 2 4 [] (omega arith) (omega arith)

abbrev base : Env (ℕ × ℕ)
base = record {
  register_key = λ w rp. (w, none);
  sign_asn1 = λ w id rp digest. (w, none);
  counter = λ w. (w, 0);
  confirm_presence = λ w prompt challenge app. (w, answered true false);
  sha256 = λ b. replicate 32 (length b);
  encode = λ e. some (3 ∷ []);
  decode_make = λ b. none;
  decode_get = λ b. none;
  persist = λ w cs. (w, false);
  now = λ w. 0;
}

memory-SignsOwn_example : SignsOwn (memory_env library (replicate 32 5) base)
memory-SignsOwn_example =
    memory-SignsOwn library (replicate 32 5) base gcm source
      (record { gives = λ s d point digest. (9 ∷ [], refl) }) refl
      (λ b. length-replicate 32 (length b))
