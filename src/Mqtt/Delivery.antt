-- ===== src/Mqtt/Delivery.antt =====
-- protocols/mqtt_protocol.cc: what arrives of what was sent, and in which order.
use xiaozhi_pc.Base.{
  ℕ, ◌+◌, ◌%◌, ◌^◌, ◌≤◌, ◌<◌, ◌≡◌, ap, sym, ◌∙◌, subst, append-nil, true, some, List, [], ◌∷◌, ◌++◌,
  arith, ltb, if◌then◌else◌, length, length-append, length-set, get_or, get_or-set,
  get_or-append_left, take_append_left, drop_append_left, take,
}
use mathlib.Core.Path.{ap₂}
use xiaozhi_pc.Base.Text.{Bytes}
use xiaozhi_pc.Application.State.{AudioStreamPacket}
use xiaozhi_pc.Mqtt.Packet.{
  Cipher, Channel, get_be32, datagram, header, send_audio, Receiving, ignored, delivered, accept,
  on_message,
}

-- What mbedtls documents of the counter mode: it handles any data, keeps their size, and undoes
-- itself under the same key and counter block.
pub record IsCounterMode (crypt : Cipher) : Type 0 where
  pub apply : (key block s : Bytes) → Bytes
  pub crypt-apply : (key block s : Bytes) → crypt key block s ≡ some (apply key block s)
  pub crypt-crypt : (key block s : Bytes) → crypt key block (apply key block s) ≡ some s
  pub length-apply : (key block s : Bytes) → length (apply key block s) ≡ length s

length-header :
    (nonce : Bytes) (p : AudioStreamPacket) (n : ℕ) → length (header nonce p n) ≡ length nonce
unfolding header
length-header nonce p n = simp length-set

module _ (nonce : Bytes) (p : AudioStreamPacket) (n : ℕ) (block : length nonce ≡ 16) where
  header_type : get_or (header nonce p n) 0 0 ≡ get_or nonce 0 0
  unfolding header
  header_type = simp get_or-set

  header_timestamp : p.timestamp < 2 ^ 32 → get_be32 8 (header nonce p n) ≡ p.timestamp
  unfolding header
  header_timestamp h = simp (get_or-set, length-set, block) (omega arith)

  header_sequence : n < 2 ^ 32 → get_be32 12 (header nonce p n) ≡ n
  unfolding header
  header_sequence h = simp (get_or-set, length-set, block) (omega arith)

-- Only the header is read for the fields.
get_be32-append : (i : ℕ) (s t : Bytes) → i + 3 < length s → get_be32 i (s ++ t) ≡ get_be32 i s
get_be32-append i s t h = omega (
  arith,
  get_or-append_left s t i 0,
  get_or-append_left s t (i + 1) 0,
  get_or-append_left s t (i + 2) 0,
  get_or-append_left s t (i + 3) 0,
)

accept_lem :
    (crypt : Cipher) (h e : Bytes) (payload : Bytes) (c : Channel)
    → length h ≡ 16
    → length c.aes_nonce ≡ 16
    → c.remote_sequence ≤ get_be32 12 h
    → crypt c.aes_key h e ≡ some payload
    → accept crypt (h ++ e) c ≡ (
      delivered (record { timestamp = get_be32 8 h; payload = payload }),
      record c { remote_sequence = get_be32 12 h },
    )
unfolding accept
accept_lem crypt h e payload c lh ln le ok = ground (
  arith,
  length-append h e,
  get_be32-append 8 h e (omega arith),
  get_be32-append 12 h e (omega arith),
  take_append_left h e 16 lh,
  drop_append_left h e (length c.aes_nonce) (lh ∙ sym ln),
)

module _ (crypt : Cipher) (mode : IsCounterMode crypt) (sizeof_string : ℕ) where
  -- A datagram that `SendAudio` builds is delivered by a peer that runs the same code with the same
  -- key and a nonce of sixteen bytes of type 1, with its timestamp of 32 bits and its payload, and moves the
  -- peer's sequence number to the sender's, unless the peer has seen a later number. But the peer
  -- ignores it if header and payload together are smaller than a `std::string` object.
  pub on_message-send_audio :
      (p : AudioStreamPacket) (s r : Channel)
      → s.has_udp ≡ true
      → length s.aes_nonce ≡ 16
      → get_or s.aes_nonce 0 0 ≡ 1
      → r.aes_key ≡ s.aes_key
      → length r.aes_nonce ≡ 16
      → p.timestamp < 2 ^ 32
      → r.remote_sequence ≤ (s.local_sequence + 1) % 2 ^ 32
      → let n = (s.local_sequence + 1) % 2 ^ 32 in
        (d : Bytes) × (send_audio crypt p s ≡ (datagram d, record s { local_sequence = n }))
        × (on_message sizeof_string crypt d r ≡ (
            if ltb (16 + length p.payload) sizeof_string
            then (ignored, r)
            else (delivered p, record r { remote_sequence = n })))
  unfolding send_audio on_message
  on_message-send_audio p s r u ln type key rn ts le = (h ++ e, sending, receiving)
    where
      n : ℕ
      n = (s.local_sequence + 1) % 2 ^ 32

      h : Bytes
      h = header s.aes_nonce p n

      lh : length h ≡ 16
      lh = length-header s.aes_nonce p n ∙ ln

      whole : take 16 h ≡ h
      whole = ap (take 16) (sym (append-nil h)) ∙ take_append_left h [] 16 lh

      e : Bytes
      e = mode.apply s.aes_key (take 16 h) p.payload

      sending : send_audio crypt p s ≡ (datagram (h ++ e), record s { local_sequence = n })
      sending = ground (arith, mode.crypt-apply s.aes_key (take 16 h) p.payload)

      sequence : get_be32 12 h ≡ n
      sequence = header_sequence s.aes_nonce p n ln (omega arith)

      timestamp : get_be32 8 h ≡ p.timestamp
      timestamp = header_timestamp s.aes_nonce p n ln ts

      decrypted : crypt r.aes_key h e ≡ some p.payload
      decrypted = rw key (
          subst (λ b. crypt s.aes_key b e ≡ some p.payload) whole
            (mode.crypt-crypt s.aes_key (take 16 h) p.payload))

      accepted : accept crypt (h ++ e) r ≡ (delivered p, record r { remote_sequence = n })
      accepted =
          accept_lem crypt h e p.payload r lh rn (omega (arith, sequence)) decrypted
          ∙ ap₂
              (λ (t q : ℕ).
                let x : Receiving × Channel = (
                  delivered (record { timestamp = t; payload = p.payload }),
                  record r { remote_sequence = q },
                ) in
                x)
              timestamp sequence

      receiving : on_message sizeof_string crypt (h ++ e) r ≡ (
          if ltb (16 + length p.payload) sizeof_string
          then (ignored, r)
          else (delivered p, record r { remote_sequence = n }))
      receiving = ground (
        arith,
        accepted,
        lh,
        length-append h e,
        mode.length-apply s.aes_key (take 16 h) p.payload,
        get_or-append_left h e 0 0 (omega (arith, lh)),
        header_type s.aes_nonce p n ln,
      )

-- Datagrams that arrive one after another, and what becomes of each.
unfoldable pub on_messages : ℕ → Cipher → List Bytes → Channel → List Receiving × Channel
on_messages z crypt [] c = ([], c)
on_messages z crypt (s ∷ ss) c =
    let (r, c') = on_message z crypt s c in
    let (rs, last) = on_messages z crypt ss c' in (r ∷ rs, last)

on_message_mono :
    (z : ℕ) (crypt : Cipher) (s : Bytes) (c : Channel)
    → c.remote_sequence ≤ (on_message z crypt s c).1.remote_sequence
unfolding on_message
on_message_mono z crypt s c = ground arith

-- The last accepted sequence number never falls, whatever datagrams arrive in whatever order.
on_messages_mono :
    (z : ℕ) (crypt : Cipher) (ss : List Bytes) (c : Channel)
    → c.remote_sequence ≤ (on_messages z crypt ss c).1.remote_sequence
unfolding on_messages
on_messages_mono z crypt [] c = omega arith
on_messages_mono z crypt (s ∷ ss) c =
    omega
      (arith, on_message_mono z crypt s c, on_messages_mono z crypt ss (on_message z crypt s c).1)

-- A datagram that was delivered is delivered again when it comes a second time: its number is not
-- below the last one, which is its own.
pub on_message_again :
    (z : ℕ) (crypt : Cipher) (s : Bytes) (c : Channel) (p : AudioStreamPacket)
    → (on_message z crypt s c).0 ≡ delivered p
    → on_message z crypt s (on_message z crypt s c).1 ≡ (delivered p, (on_message z crypt s c).1)
unfolding on_message
on_message_again z crypt s c p h = ground arith
