-- ===== src/Opus/Sizes.antt =====
-- porting/impl/opus_wrapper.cc: the sizes of what the coders give.
use xiaozhi_pc.Base.{
  ℕ, zero, suc, ◌*◌, ◌/◌, ◌≤◌, ◌≡◌, refl, sym, subst, ◌∙◌, true, List, length, replicate,
  length-replicate, length-take, arith,
}
use xiaozhi_pc.Base.Text.{Bytes}
use xiaozhi_pc.Base.Int.{ℤ, pos, negsuc}
use native.Mathlib.Nat.{mul-le-mul_right}
use xiaozhi_pc.Opus.{
  max_frame_size, max_packet_size, Library, Encoder, Decoder, take_packet, take_pcm, encode, decode,
  IsBounded, IsGoodPacket, IsGoodPcm,
}

mul_mono : (m n k : ℕ) → m ≤ n → m * k ≤ n * k
mul_mono m n k h = mul-le-mul_right k h

take_packet_good :
    (i : ℤ) (buffer : Bytes)
    → ((n : ℕ) → i ≡ pos n → n ≤ length buffer)
    → length buffer ≡ max_packet_size
    → IsGoodPacket (take_packet (i, buffer))
take_packet_good (pos zero) buffer fits len = tt
take_packet_good (pos (suc n)) buffer fits len =
    let e = length-take (suc n) buffer (fits (suc n) refl) in
    (omega (arith, e), omega (arith, e, fits (suc n) refl, len))
take_packet_good (negsuc n) buffer fits len = tt

encode-IsGoodPacket :
    (lib : Library) (e : Encoder) (samples : List ℕ)
    → IsBounded lib
    → e.has_encoder ≡ true
    → IsGoodPacket (encode lib e samples)
unfolding encode
encode-IsGoodPacket lib e samples v has =
    let buffer = replicate max_packet_size 0 in
    let frames = length samples / e.channels in
    let q = lib.opus_encode samples frames buffer in
    rw has (
      take_packet_good (q.0) (q.1)
        (λ n h.
          subst (λ k. n ≤ k) (sym (v.encode_buffer samples frames buffer))
            (v.encode_size samples frames n buffer h))
        (v.encode_buffer samples frames buffer ∙ length-replicate {A = ℕ} max_packet_size 0))

take_pcm_good :
    (channels : ℕ) (i : ℤ) (buffer : List ℕ)
    → ((n : ℕ) → i ≡ pos n → n ≤ max_frame_size)
    → length buffer ≡ max_frame_size * channels
    → IsGoodPcm channels (take_pcm channels (i, buffer))
take_pcm_good channels (pos n) buffer fits len = (
  n,
  fits n refl,
  length-take (n * channels) buffer
      (subst (λ k. n * channels ≤ k) (sym len) (mul_mono n max_frame_size channels (fits n refl))),
)
take_pcm_good channels (negsuc n) buffer fits len = len

decode-IsGoodPcm :
    (lib : Library) (d : Decoder) (bytes : Bytes)
    → IsBounded lib
    → d.has_decoder ≡ true
    → IsGoodPcm d.channels (decode lib d bytes)
unfolding decode
decode-IsGoodPcm lib d bytes v has =
    let buffer = replicate (max_frame_size * d.channels) 0 in
    let q = lib.opus_decode bytes buffer max_frame_size in
    rw has (
      take_pcm_good d.channels (q.0) (q.1) (v.decode_size bytes buffer max_frame_size) (
        v.decode_buffer bytes buffer max_frame_size
        ∙ length-replicate {A = ℕ} (max_frame_size * d.channels) 0))

-- With libopus as documented, coders that could be made keep to the sizes: an encoder gives a packet
-- of at least one and at most 3828 bytes, or none; a decoder either succeeds with a whole number of
-- frames, at most 5760, of a sample for each channel, or fails and leaves the whole buffer.
pub coded_sizes :
    (lib : Library) (e : Encoder) (d : Decoder) (samples : List ℕ) (bytes : Bytes)
    → IsBounded lib
    → e.has_encoder ≡ true
    → d.has_decoder ≡ true
    → IsGoodPacket (encode lib e samples) × IsGoodPcm d.channels (decode lib d bytes)
coded_sizes lib e d samples bytes v has has' =
    (encode-IsGoodPacket lib e samples v has, decode-IsGoodPcm lib d bytes v has')
