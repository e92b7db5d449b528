-- ===== src/Fidohid/Allocation.antt =====
-- The channel IDs that allocateCID gives out.
use blueripple_passkey.Prelude.{
  ℕ, ◌≡◌, ◌≢◌, none, some, List, [], ◌∷◌, ◌++◌, Bytes, arith, All, uint32_at,
}
use blueripple_passkey.Fidohid.Packet.{broadcast_cid}
use blueripple_passkey.Fidohid.Channels.{Channels, lookup}
use blueripple_passkey.Fidohid.Device.{Draw, random, fallback, allocate_cid}

abbrev pub IsRandom : Draw → Type 0
IsRandom (random b) = Unit
IsRandom (fallback t) = ⊥

-- An allocated channel ID is neither zero nor the broadcast ID, and no open channel has it, as long
-- as the system's random source does not fail.
pub allocate_cid-fresh :
    (m : Channels) (draws : List Draw) (cid : ℕ)
    → All IsRandom draws
    → allocate_cid m draws ≡ some cid
    → (cid ≢ 0) × (cid ≢ broadcast_cid) × (lookup cid m ≡ none)
unfolding allocate_cid
allocate_cid-fresh m [] cid a h = cc
allocate_cid-fresh m (fallback t ∷ draws) cid a h = absurd a.0
allocate_cid-fresh m (random b ∷ draws) cid a h = ground (arith, allocate_cid-fresh m draws cid a.1)

-- The loop ends at the first four random bytes that are neither zero, nor the broadcast ID, nor an
-- open channel's, if not before.
pub allocate_cid_total :
    (m : Channels) (before after : List Draw) (b : Bytes)
    → uint32_at b 0 ≢ 0
    → uint32_at b 0 ≢ broadcast_cid
    → lookup (uint32_at b 0) m ≡ none
    → allocate_cid m (before ++ random b ∷ after) ≢ none
unfolding allocate_cid
allocate_cid_total m [] after b h k l e = ground arith
allocate_cid_total m (fallback t ∷ before) after b h k l e =
    ground (arith, allocate_cid_total m before after b h k l)
allocate_cid_total m (random x ∷ before) after b h k l e =
    ground (arith, allocate_cid_total m before after b h k l)
