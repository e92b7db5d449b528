-- ===== src/Fidohid/Continuation.antt =====
-- Continuation reports: how handleContPacket collects the rest of a message.
use blueripple_passkey.Prelude.{
  ℕ, zero, suc, ◌+◌, ◌-◌, ◌*◌, ◌%◌, ◌<◌, ◌≤◌, ◌≡◌, refl, sym, ap, ◌∙◌, min, Bool, Option, none,
  some, List, [], ◌∷◌, ◌++◌, Bytes, length, take, drop, replicate, arith, ne→==, eq→==, lt→leb,
  length-append, length-take, length-drop, take-append_length, take_all, drop_all, take-append-drop,
  append_assoc,
}
use blueripple_passkey.Fidohid.Packet.{
  padded, cont_packets, cont_data_len, init_data_len, max_message_len,
}
use native.Mathlib.Decide.{dec_le}
use blueripple_passkey.Fidohid.Channels.{Channel, lookup, lookup-insert_self, insert-insert}
use blueripple_passkey.Fidohid.Device.{Device, Draw, dispatch_command, put_channel}
use blueripple_passkey.Fidohid.Handlers.{
  handle_output, handle_cont_packet, continue_message, next_part,
}
use blueripple_passkey.Fidohid.Parsing.{length-padded, handle_output-cont_packet}

pub take_sent :
    (n k : ℕ) (b : Bytes)
    → k ≡ length b
    → take (min (min k n) (length (padded n b))) (padded n b) ≡ take n b
take_sent n k b h =
    take-append_length _ (take n b) (replicate (n - length b) 0)
      (omega (arith, length-padded n b, length-take n b))

next_part-padded :
    (ch : Channel) (b : Bytes)
    → ch.total_len ≡ length ch.message + length b
    → next_part ch (padded cont_data_len b) ≡ take cont_data_len b
next_part-padded ch b h = take_sent cont_data_len _ b (omega arith)

abbrev pub grown : Channel → ℕ → Bytes → Channel
grown ch now b = record ch {
  message = ch.message ++ b;
  seq_num = (ch.seq_num + 1) % 256;
  last_seen = now;
}

abbrev pub closed : Channel → ℕ → Channel
closed ch now = record ch {
  total_len = 0;
  message = [];
  seq_num = (ch.seq_num + 1) % 256;
  last_seen = now;
}

pub cont_packets-nil : (fuel cid seq : ℕ) → cont_packets fuel cid seq [] ≡ []
unfolding cont_packets
cont_packets-nil zero cid seq = refl
cont_packets-nil (suc fuel) cid seq = refl

-- A channel that waits for the rest b of a message, with report number seq next.
pub record Waits (ch : Channel) (cmd seq : ℕ) (b : Bytes) : Type 0 where
  pub of_cmd : ch.cmd ≡ cmd
  pub at_seq : ch.seq_num ≡ seq
  pub so_far : length ch.message ≡ init_data_len + cont_data_len * seq
  pub fits : ch.total_len ≡ length ch.message + length b
  pub short : ch.total_len ≤ max_message_len
  pub open_yet : 0 < length b

Waits-grown :
    (ch : Channel) (cmd seq now : ℕ) (b : Bytes)
    → Waits ch cmd seq b
    → cont_data_len < length b
    → Waits (grown ch now (take cont_data_len b)) cmd ((seq + 1) % 256) (drop cont_data_len b)
Waits-grown ch cmd seq now b w h = record {
  of_cmd = w.of_cmd;
  at_seq = ap (λ (n : ℕ). (n + 1) % 256) w.at_seq;
  so_far =
      omega (arith, length-append ch.message (take cont_data_len b), length-take cont_data_len b);
  fits = omega (
    arith,
    length-append ch.message (take cont_data_len b),
    length-take cont_data_len b,
    length-drop cont_data_len b,
  );
  short = w.short;
  open_yet = omega (arith, length-drop cont_data_len b);
}

module _ {Dev : Type 0} (inject : Dev → Bytes → Dev × Bool) (draws : List Draw) (now : ℕ) where
  abbrev bind : Option (Device Dev) → (Device Dev → Option (Device Dev)) → Option (Device Dev)
  bind none f = none
  bind (some d) f = f d

  -- Reports to handleOutput one after the other, each with the report ID in front.
  unfoldable pub receive : Device Dev → List Bytes → Option (Device Dev)
  receive d [] = some d
  receive d (p ∷ ps) = bind (handle_output inject d draws now (0 ∷ p)) (λ d'. receive d' ps)

  module _ (cid cmd : ℕ) where
    cont_last :
        (d : Device Dev) (ch : Channel) (seq : ℕ) (b : Bytes)
        → lookup cid d.channels ≡ some ch
        → Waits ch cmd seq b
        → length b ≤ cont_data_len
        → handle_cont_packet inject d now cid seq (padded cont_data_len b)
          ≡ dispatch_command inject (put_channel d cid (closed ch now)) cid cmd (ch.message ++ b)
    unfolding handle_cont_packet continue_message
    cont_last d ch seq b e w h =
        rw (e, next_part-padded ch b w.fits, take_all cont_data_len b h)
          (ground (arith, length-append ch.message b, take_all ch.total_len (ch.message ++ b)))

    cont_more :
        (d : Device Dev) (ch : Channel) (seq : ℕ) (b : Bytes)
        → lookup cid d.channels ≡ some ch
        → Waits ch cmd seq b
        → cont_data_len < length b
        → handle_cont_packet inject d now cid seq (padded cont_data_len b)
          ≡ put_channel d cid (grown ch now (take cont_data_len b))
    unfolding handle_cont_packet continue_message
    cont_more d ch seq b e w h = rw (
      e,
      next_part-padded ch b w.fits,
      ne→== ch.total_len 0 (omega (arith, w.fits, w.open_yet)),
      eq→== seq ch.seq_num (sym w.at_seq),
      lt→leb ch.total_len (length (ch.message ++ take cont_data_len b) % 65536) (
          omega
            (arith, length-append ch.message (take cont_data_len b), length-take cont_data_len b)),
    )

    seq_small : (ch : Channel) (seq : ℕ) (b : Bytes) → Waits ch cmd seq b → seq < 128
    seq_small ch seq b w = omega (arith, w.so_far, w.fits, w.short)

    -- The reports of the rest of a message complete it.
    pub receive-cont :
        (fuel : ℕ) (d : Device Dev) (ch : Channel) (seq : ℕ) (b : Bytes)
        → cid < 4294967296
        → length b ≤ fuel
        → lookup cid d.channels ≡ some ch
        → Waits ch cmd seq b
        → (end : Channel) × (receive d (cont_packets fuel cid seq b)
            ≡ some (dispatch_command inject (put_channel d cid end) cid cmd (ch.message ++ b)))
    unfolding receive cont_packets
    receive-cont zero d ch seq b hc f e w = absurd (omega (arith, w.open_yet))
    receive-cont (suc fuel) d ch seq [] hc f e w = absurd (omega (arith, w.open_yet))
    receive-cont (suc fuel) d ch seq (x ∷ b) hc f e w =
        let report =
          handle_output-cont_packet inject d draws now cid seq (x ∷ b) hc
            (seq_small ch seq (x ∷ b) w) in
        elim (dec_le (length (x ∷ b)) cont_data_len) [
          | yes h ↦ (
            closed ch now,
            rw (
              report,
              cont_last d ch seq (x ∷ b) e w h,
              drop_all cont_data_len (x ∷ b) h,
              cont_packets-nil,
            ),
          )
          | no h ↦
              let part : Bytes = take cont_data_len (x ∷ b) in
              let ch' : Channel = grown ch now part in
              let (end, ih) =
                receive-cont fuel (put_channel d cid ch') ch' ((seq + 1) % 256)
                  (drop cont_data_len (x ∷ b)) hc (omega (arith, length-drop cont_data_len (x ∷ b)))
                  (lookup-insert_self cid ch' d.channels)
                  (Waits-grown ch cmd seq now (x ∷ b) w (omega arith)) in
              (
                end,
                rw (report, cont_more d ch seq (x ∷ b) e w (omega arith))
                    (ih
                      ∙ rw (
                        insert-insert cid ch' end d.channels,
                        append_assoc ch.message part (drop cont_data_len (x ∷ b)),
                        take-append-drop cont_data_len (x ∷ b),
                      )),
              )
        ]
