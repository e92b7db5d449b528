-- ===== src/Fidohid/Cleanup.antt =====
-- One round of cleanupChannels, and Close. Go's map order, in which the cancel functions run, is
-- the order of the list here.
use blueripple_passkey.Prelude.{ℕ, ◌-◌, Bool, none, some, List, [], ◌∷◌, ◌++◌, ltb, if◌then◌else◌}
use blueripple_passkey.Fidohid.Packet.{channel_timeout}
use blueripple_passkey.Fidohid.Channels.{Channel, Channels}
use blueripple_passkey.Fidohid.Device.{Device}

pub cancel_of : Channel → List ℕ
cancel_of ch = elim ch.cancel_func [ none ↦ [] | some op ↦ op ∷ [] ]

-- now.Sub(ch.lastSeen) > channelTimeout
abbrev pub is_expired : ℕ → Channel → Bool
is_expired now ch = ltb channel_timeout (now - ch.last_seen)

-- The channels that stay, and the contexts that are cancelled.
unfoldable pub cleanup_loop : ℕ → Channels → Channels × List ℕ
unfolding cancel_of
cleanup_loop now [] = ([], [])
cleanup_loop now ((cid, ch) ∷ m) =
    let (kept, ops) = cleanup_loop now m in
    if is_expired now ch then (kept, cancel_of ch ++ ops) else ((cid, ch) ∷ kept, ops)

unfoldable pub close_loop : Channels → List ℕ
unfolding cancel_of
close_loop [] = []
close_loop ((cid, ch) ∷ m) = cancel_of ch ++ close_loop m

module _ {Dev : Type 0} where
  unfoldable pub cleanup_channels : Device Dev → ℕ → Device Dev
  cleanup_channels d now =
      let (kept, ops) = cleanup_loop now d.channels in
      record d { channels = kept; cancelled = d.cancelled ++ ops }

  -- d.dev.Close() is the uhid library's.
  unfoldable pub close : (Dev → Dev) → Device Dev → Device Dev
  close close_dev d = record d {
    dev = close_dev d.dev;
    channels = [];
    cancelled = d.cancelled ++ close_loop d.channels;
  }
