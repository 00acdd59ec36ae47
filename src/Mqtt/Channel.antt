-- ===== src/Mqtt/Channel.antt =====
-- protocols/mqtt_protocol.cc: the datagrams as the whole protocol object sees them: with the time of the
-- last message, by which the channel counts as open, and the flag that is set while a datagram is sent.
use xiaozhi_pc.Base.{
  ℕ, ◌≡◌, refl, ◌∙◌, Bool, true, false, not, ◌&&◌, List, [], ◌∷◌, if◌then◌else◌, arith,
}
use xiaozhi_pc.Base.Text.{Bytes}
use xiaozhi_pc.Application.State.{AudioStreamPacket}
use xiaozhi_pc.Protocol.{is_timeout}
use xiaozhi_pc.Mqtt.Packet.{
  Cipher, Channel, Sending, datagram, send_audio, Receiving, delivered, accept, on_message,
}
use xiaozhi_pc.Mqtt.Client.{Client}
use xiaozhi_pc.Mqtt.Opening.{is_audio_channel_opened}

abbrev pub is_delivered : Receiving → Bool
is_delivered (delivered p) = true
is_delivered r = false

abbrev pub with_channel : Channel → Client → Client
with_channel ch c = record c { server = record c.server { channel = ch } }

-- The callback given to `OnMessage` of the UDP client, at a time of the clock.
unfoldable pub on_datagram : ℕ → Cipher → ℕ → Bytes → Client → Receiving × Client
unfolding on_message
on_datagram z crypt now s c =
    let (r, ch) = on_message z crypt s c.server.channel in
    (
      r,
      record (with_channel ch c) {
        last_incoming_time = if is_delivered r then now else c.last_incoming_time;
      },
    )

-- `SendAudio`: what was given to the UDP client, and the object when the call is over.
unfoldable pub send_packet : Cipher → AudioStreamPacket → Client → Sending × Client
unfolding send_audio
send_packet crypt p c =
    let (s, ch) = send_audio crypt p c.server.channel in
    let c' = with_channel ch c in
    (s, elim s [ datagram d ↦ record c' { busy_sending_audio = false } | _ ↦ c' ])

-- Datagrams with their times, one after another.
unfoldable pub on_datagrams : ℕ → Cipher → List (ℕ × Bytes) → Client → Client
unfolding on_datagram
on_datagrams z crypt [] c = c
on_datagrams z crypt ((now, s) ∷ ds) c = on_datagrams z crypt ds (on_datagram z crypt now s c).1

-- The time of the last datagram that was delivered, or the one given.
unfoldable pub latest : ℕ → Cipher → List (ℕ × Bytes) → Channel → ℕ → ℕ
latest z crypt [] ch t = t
latest z crypt ((now, s) ∷ ds) ch t =
    let (r, ch') = on_message z crypt s ch in
    latest z crypt ds ch' (if is_delivered r then now else t)

on_message-has_udp :
    (z : ℕ) (crypt : Cipher) (s : Bytes) (ch : Channel)
    → (on_message z crypt s ch).1.has_udp ≡ ch.has_udp
unfolding on_message accept
on_message-has_udp z crypt s ch = ground arith

-- Whatever datagrams arrive, the channel counts as open as long as there is a UDP client, no error was reported, and the last
-- delivered datagram, or else the last message before, is not more than 120 whole seconds old; a datagram that is ignored
-- does not count.
pub is_audio_channel_opened-on_datagrams :
    (z : ℕ) (crypt : Cipher) (now : ℕ) (ds : List (ℕ × Bytes)) (c : Client)
    → is_audio_channel_opened now (on_datagrams z crypt ds c) ≡ (
        c.server.channel.has_udp
        && not c.error_occurred
        && not (is_timeout now (latest z crypt ds c.server.channel c.last_incoming_time)))
unfolding is_audio_channel_opened on_datagrams on_datagram latest
is_audio_channel_opened-on_datagrams z crypt now [] c = refl
is_audio_channel_opened-on_datagrams z crypt now ((t, s) ∷ ds) c =
    is_audio_channel_opened-on_datagrams z crypt now ds (on_datagram z crypt t s c).1
    ∙ rw (on_message-has_udp z crypt s c.server.channel) refl
