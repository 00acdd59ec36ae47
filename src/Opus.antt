-- ===== src/Opus.antt =====
-- porting/impl/opus_wrapper.cc and opus_wrapper.h: the encoder and the decoder of sound. The calls of libopus are a record
-- of functions; a coder's own state is left to it.
pub mod Sizes
use xiaozhi_pc.Base.{
  ℕ, zero, suc, ◌*◌, ◌/◌, ◌<◌, ◌≤◌, ◌≡◌, Bool, false, List, if◌then◌else◌, length, take, replicate,
}
use xiaozhi_pc.Base.Text.{Bytes}
use xiaozhi_pc.Base.Int.{ℤ, pos, negsuc}

abbrev pub max_frame_size : ℕ
max_frame_size = 6 * 960

abbrev pub max_packet_size : ℕ
max_packet_size = 3 * 1276

-- `opus_encode` with the samples, the number of frames and the buffer, and `opus_decode` with the
-- bytes, the buffer and the frames that it can hold. They return a number, which is negative for
-- an error, and the buffer as it is then.
pub record Library : Type 0 where
  pub opus_encode : List ℕ → ℕ → Bytes → ℤ × Bytes
  pub opus_decode : Bytes → List ℕ → ℕ → ℤ × List ℕ

pub record Encoder : Type 0 where
  -- whether `encoder` is not null
  pub has_encoder : Bool
  pub channels : ℕ

pub record Decoder : Type 0 where
  pub has_decoder : Bool
  pub sample_rate : ℕ
  pub channels : ℕ
  pub duration_ms : ℕ

-- The constructor, with whether the encoder could be made and its bit rate set.
unfoldable pub make_encoder : Bool → Bool → ℕ → Encoder
make_encoder created bitrate_set channels = record {
  has_encoder = if created then bitrate_set else false;
  channels = channels;
}

unfoldable pub make_decoder : Bool → ℕ → ℕ → ℕ → Decoder
make_decoder created sample_rate channels duration_ms = record {
  has_decoder = created;
  sample_rate = sample_rate;
  channels = channels;
  duration_ms = duration_ms;
}

-- How `Encode` ends: it gives the library a null encoder, it prints an error, or it calls the callback.
pub data Encoded : Type 0 where
  null_encoder failed : Encoded
  packet : Bytes → Encoded

abbrev take_packet : ℤ × Bytes → Encoded
take_packet (pos zero, buffer) = failed
take_packet (pos (suc n), buffer) = packet (take (suc n) buffer)
take_packet (negsuc n, buffer) = failed

unfoldable pub encode : Library → Encoder → List ℕ → Encoded
encode lib e samples =
    if e.has_encoder
    then take_packet
        (lib.opus_encode samples (length samples / e.channels) (replicate max_packet_size 0))
    else null_encoder

-- How `Decode` ends: it gives the library a null decoder, or it returns false or true with `pcm`.
pub data Decoded : Type 0 where
  null_decoder : Decoded
  refused pcm : List ℕ → Decoded

abbrev take_pcm : ℕ → ℤ × List ℕ → Decoded
take_pcm channels (pos frame_size, buffer) = pcm (take (frame_size * channels) buffer)
take_pcm channels (negsuc n, buffer) = refused buffer

unfoldable pub decode : Library → Decoder → Bytes → Decoded
decode lib d bytes =
    if d.has_decoder
    then take_pcm d.channels
        (lib.opus_decode bytes (replicate (max_frame_size * d.channels) 0) max_frame_size)
    else null_decoder

-- What libopus documents: no more is reported than the buffer holds, and no buffer changes its
-- length.
pub record IsBounded (lib : Library) : Type 0 where
  pub encode_size :
      (samples : List ℕ) (frames n : ℕ) (buffer : Bytes)
      → (lib.opus_encode samples frames buffer).0 ≡ pos n
      → n ≤ length buffer
  pub encode_buffer :
      (samples : List ℕ) (frames : ℕ) (buffer : Bytes)
      → length (lib.opus_encode samples frames buffer).1 ≡ length buffer
  pub decode_size :
      (bytes : Bytes) (buffer : List ℕ) (frames n : ℕ)
      → (lib.opus_decode bytes buffer frames).0 ≡ pos n
      → n ≤ frames
  pub decode_buffer :
      (bytes : Bytes) (buffer : List ℕ) (frames : ℕ)
      → length (lib.opus_decode bytes buffer frames).1 ≡ length buffer

-- What may be seen of the ends.
abbrev pub IsGoodPacket : Encoded → Type 0
IsGoodPacket null_encoder = ⊥
IsGoodPacket failed = Unit {0}
IsGoodPacket (packet bytes) = (0 < length bytes) × (length bytes ≤ max_packet_size)

abbrev pub IsGoodPcm : ℕ → Decoded → Type 0
IsGoodPcm channels null_decoder = ⊥
IsGoodPcm channels (refused xs) = length xs ≡ max_frame_size * channels
IsGoodPcm channels (pcm xs) =
    (frames : ℕ) × (frames ≤ max_frame_size) × (length xs ≡ frames * channels)
