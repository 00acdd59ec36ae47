-- ===== src/Mqtt/Stream.antt =====
-- protocols/mqtt_protocol.cc: a stream of packets over a network that loses some of the datagrams.
use xiaozhi_pc.Base.{
  ℕ, ◌+◌, ◌%◌, ◌^◌, ◌≤◌, ◌<◌, ◌≡◌, ap, subst, ◌∙◌, true, List, [], ◌∷◌, map, inl, inr, arith, ltb,
  length, get_or, if◌then◌else◌,
}
use xiaozhi_pc.Base.Text.{Bytes}
use xiaozhi_pc.Base.Sublist.{Sublist, none_left, left_out, kept, Sublist_of_nil, Sublist_of_cons}
use xiaozhi_pc.Application.State.{AudioStreamPacket}
use xiaozhi_pc.Mqtt.Packet.{
  Cipher, Channel, datagram, send_audio, Receiving, ignored, delivered, on_message,
}
use xiaozhi_pc.Mqtt.Delivery.{IsCounterMode, on_message-send_audio, on_messages}

-- The datagrams of one `SendAudio` after another.
unfoldable pub send_all : Cipher → List AudioStreamPacket → Channel → List Bytes
send_all crypt [] c = []
send_all crypt (p ∷ ps) c =
    let (s, c') = send_audio crypt p c in
    let rest = send_all crypt ps c' in elim s [ datagram d ↦ d ∷ rest | _ ↦ rest ]

-- Timestamps of 32 bits, and datagrams that are not smaller than a `std::string` object.
abbrev pub AreSendable : ℕ → List AudioStreamPacket → Type 0
AreSendable z [] = Unit {0}
AreSendable z (p ∷ ps) = (p.timestamp < 2 ^ 32) × (z ≤ 16 + length p.payload) × AreSendable z ps

send_all_step :
    (crypt : Cipher) (p : AudioStreamPacket) (ps : List AudioStreamPacket) (s s' : Channel)
    (d : Bytes)
    → send_audio crypt p s ≡ (datagram d, s')
    → send_all crypt (p ∷ ps) s ≡ d ∷ send_all crypt ps s'
unfolding send_all
send_all_step crypt p ps s s' d e = rw (e, send_all, e)

on_messages_step :
    (z : ℕ) (crypt : Cipher) (d : Bytes) (ds : List Bytes) (r r' : Channel) (x : Receiving)
    → on_message z crypt d r ≡ (x, r')
    → (on_messages z crypt (d ∷ ds) r).0 ≡ x ∷ (on_messages z crypt ds r').0
unfolding on_messages
on_messages_step z crypt d ds r r' x e = rw (e, on_messages)

module _ (crypt : Cipher) (mode : IsCounterMode crypt) (z : ℕ) where
  -- Whatever datagrams of a stream are lost, if the others arrive in their order, then the peer with the same
  -- key and nonces of sixteen bytes of type 1 delivers each of them, as the packet that was sent, as
  -- long as the sequence number does not wrap around and the peer has seen no later number.
  pub on_messages-send_all :
      (ps : List AudioStreamPacket) (s r : Channel) (arrived : List Bytes)
      → s.has_udp ≡ true
      → length s.aes_nonce ≡ 16
      → get_or s.aes_nonce 0 0 ≡ 1
      → r.aes_key ≡ s.aes_key
      → length r.aes_nonce ≡ 16
      → AreSendable z ps
      → s.local_sequence + length ps < 2 ^ 32
      → r.remote_sequence ≤ s.local_sequence + 1
      → Sublist arrived (send_all crypt ps s)
      → (qs : List AudioStreamPacket) × Sublist qs ps
        × ((on_messages z crypt arrived r).0 ≡ map delivered qs)
  unfolding send_all on_messages
  on_messages-send_all [] s r arrived u ln type key rn ok w le sub =
      ([], none_left, rw (Sublist_of_nil sub))
  on_messages-send_all (p ∷ ps) s r arrived u ln type key rn ok w le sub =
      elim (Sublist_of_cons (subst (Sublist arrived) (send_all_step crypt p ps s s' d sent) sub)) [
        | inl lost ↦
            let (qs, l, e) =
              on_messages-send_all ps s' r arrived u ln type key rn ok.2 (omega (arith, next))
                (omega (arith, next)) lost in
            (qs, left_out l, e)
        | inr (us, first, later) ↦
            let (qs, l, e) =
              on_messages-send_all ps s' (record r { remote_sequence = n }) us u ln type key rn ok.2
                (omega (arith, next)) (omega arith) later in
            (
              p ∷ qs,
              kept l,
              rw first (
                  on_messages_step z crypt d us r (record r { remote_sequence = n }) (delivered p)
                    arrives
                  ∙ ap (◌∷◌ (delivered p)) e),
            )
      ]
    where
      n : ℕ
      n = (s.local_sequence + 1) % 2 ^ 32

      next : n ≡ s.local_sequence + 1
      next = omega arith

      s' : Channel
      s' = record s { local_sequence = n }

      one :
          (d : Bytes) × (send_audio crypt p s ≡ (datagram d, s'))
          × (on_message z crypt d r ≡ (
              if ltb (16 + length p.payload) z
              then (ignored, r)
              else (delivered p, record r { remote_sequence = n })))
      one = on_message-send_audio crypt mode z p s r u ln type key rn ok.0 (omega (arith, next))

      d : Bytes
      d = one.0

      sent : send_audio crypt p s ≡ (datagram d, s')
      sent = one.1

      arrives : on_message z crypt d r ≡ (delivered p, record r { remote_sequence = n })
      arrives = one.2 ∙ ground arith
