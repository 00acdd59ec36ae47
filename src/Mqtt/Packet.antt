-- ===== src/Mqtt/Packet.antt =====
-- protocols/mqtt_protocol.cc: the audio channel. `SendAudio` builds a datagram, and the `OnMessage`
-- callback of the UDP client takes one apart. The cipher is mbedtls's: a function of the key, the
-- sixteen bytes of the counter block and the data, `none` when it reports an error.
-- `last_incoming_time_` and `busy_sending_audio_` come in with `Mqtt.Channel`.
--   |type 1|flags 1|payload_len 2|ssrc 4|timestamp 4|sequence 4|payload|
use xiaozhi_pc.Base.{
  ℕ, ◌+◌, ◌*◌, ◌/◌, ◌%◌, ◌^◌, Bool, Option, none, some, ◌++◌, ltb, ◌==◌, if◌then◌else◌, length,
  get_or, set, take, drop,
}
use xiaozhi_pc.Base.Text.{Bytes}
use xiaozhi_pc.Application.State.{AudioStreamPacket}

abbrev pub Cipher : Type 0
Cipher = Bytes → Bytes → Bytes → Option Bytes

pub record Channel : Type 0 where
  -- `udp_` is not null
  pub has_udp : Bool
  pub aes_key : Bytes
  pub aes_nonce : Bytes
  pub local_sequence : ℕ
  pub remote_sequence : ℕ

-- A store through a `uint16_t*` and a `uint32_t*` of a number in network order.
abbrev pub set_be16 : ℕ → ℕ → Bytes → Bytes
set_be16 i v s = set (set s i (v / 2 ^ 8 % 2 ^ 8)) (i + 1) (v % 2 ^ 8)

abbrev pub set_be32 : ℕ → ℕ → Bytes → Bytes
set_be32 i v s =
    set
      (set (set (set s i (v / 2 ^ 24 % 2 ^ 8)) (i + 1) (v / 2 ^ 16 % 2 ^ 8)) (i + 2)
        (v / 2 ^ 8 % 2 ^ 8))
      (i + 3) (v % 2 ^ 8)

-- `ntohl` of the four bytes from `i`
abbrev pub get_be32 : ℕ → Bytes → ℕ
get_be32 i s =
    get_or s i 0 * 2 ^ 24
    + get_or s (i + 1) 0 * 2 ^ 16
    + get_or s (i + 2) 0 * 2 ^ 8
    + get_or s (i + 3) 0

pub data Sending : Type 0 where
  no_channel : Sending
  -- a store behind the end of a nonce that is shorter than a block
  out_of_bounds : Sending
  encrypt_failed : Sending
  datagram : Bytes → Sending

-- The counter block of a packet with that sequence number.
unfoldable pub header : Bytes → AudioStreamPacket → ℕ → Bytes
header nonce packet sequence =
    set_be32 12 sequence (set_be32 8 packet.timestamp (set_be16 2 (length packet.payload) nonce))

unfoldable pub send_audio : Cipher → AudioStreamPacket → Channel → Sending × Channel
send_audio crypt packet c =
    if c.has_udp
    then (if ltb (length c.aes_nonce) 16
        then (out_of_bounds, c)
        else let sequence = (c.local_sequence + 1) % 2 ^ 32 in
          let nonce = header c.aes_nonce packet sequence in
          let c' = record c { local_sequence = sequence } in
          elim (crypt c.aes_key (take 16 nonce) packet.payload) [
            | none ↦ (encrypt_failed, c')
            | some encrypted ↦ (datagram (nonce ++ encrypted), c')
          ])
    else (no_channel, c)

pub data Receiving : Type 0 where
  ignored : Receiving
  -- a read behind the end, or a payload of a size that underflowed
  fault : Receiving
  delivered : AudioStreamPacket → Receiving

-- The callback behind its first two tests.
unfoldable pub accept : Cipher → Bytes → Channel → Receiving × Channel
accept crypt s c =
    let sequence = get_be32 12 s in
    if ltb (length s) 16
    then (fault, c)
    else if ltb sequence c.remote_sequence
    then (ignored, c)
    else if ltb (length s) (length c.aes_nonce)
    then (fault, c)
    else elim (crypt c.aes_key (take 16 s) (drop (length c.aes_nonce) s)) [
      | none ↦ (ignored, c)
      | some payload ↦ (
        delivered (record { timestamp = get_be32 8 s; payload = payload }),
        record c { remote_sequence = sequence },
      )
    ]

-- `sizeof(aes_nonce_)` is the size of a `std::string` object, which the platform fixes.
unfoldable pub on_message : ℕ → Cipher → Bytes → Channel → Receiving × Channel
unfolding accept
on_message sizeof_string crypt s c =
    if ltb (length s) sizeof_string
    then (ignored, c)
    else if get_or s 0 0 == 1
    then accept crypt s c
    else (ignored, c)
