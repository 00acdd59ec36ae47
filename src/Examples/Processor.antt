-- ===== src/Examples/Processor.antt =====
-- The audio processor, the audio loop and the Opus wrapper.
use xiaozhi_pc.Base.{
  ℕ, ◌<◌, ◌≤◌, ◌≡◌, ◌≢◌, refl, true, false, [], ◌∷◌, ◌++◌, ◌-◌, ◌*◌, ◌⊎◌, arith, length, replicate,
}
use xiaozhi_pc.Base.Text.{Bytes}
use xiaozhi_pc.Base.Int.{ℤ, pos, negsuc}
use xiaozhi_pc.Opus.{Library, Encoder, Decoder, encode, decode, IsBounded, IsGoodPacket, IsGoodPcm}
use xiaozhi_pc.Opus.Sizes.{coded_sizes}
use xiaozhi_pc.Codec.{Codec, failed, got, closed}
use xiaozhi_pc.AudioProcessor as Audio
use xiaozhi_pc.AudioProcessor.{
  Processor, ended, initialize, feed, take_front, destroy, frame_size, to_size_t, call_returns,
}
use xiaozhi_pc.AudioProcessor.Frames.{delivered-Sublist}
use xiaozhi_pc.Base.Sublist.{Sublist}
use xiaozhi_pc.AudioProcessor.Ends.{AreFrames, destroyed_ends}
use xiaozhi_pc.AudioInput as Input
use xiaozhi_pc.AudioInput.{on_audio_input}
use xiaozhi_pc.AudioInput.Frame.{heard_samples, on_audio_input_frame}
use xiaozhi_pc.AudioInput.Thread.{thread_does_not_end}
use xiaozhi_pc.Examples.Audio.{samples}

-- Two frames are fed, the first while the processor is stopped; then the object is destroyed while
-- the callback runs.
abbrev busy : Processor
unfolding initialize feed take_front Audio.start
busy = take_front (3 ∷ []) [] (
    Audio.start (
      take_front (1 ∷ 2 ∷ []) ((3 ∷ []) ∷ [])
        (feed (3 ∷ []) (feed (1 ∷ 2 ∷ []) (initialize true)))))

busy-Run : Audio.Run (initialize true) 5 busy
unfolding initialize feed take_front Audio.start
busy-Run =
    Audio.next
      (Audio.next
        (Audio.next
          (Audio.next (Audio.next Audio.here (Audio.feeds (1 ∷ 2 ∷ []) refl))
            (Audio.feeds (3 ∷ []) refl))
          (Audio.takes (1 ∷ 2 ∷ []) ((3 ∷ []) ∷ []) refl refl))
        (Audio.starts refl))
      (Audio.takes (3 ∷ []) [] refl refl)

abbrev destroyed : Processor
unfolding destroy
destroyed = destroy busy

destroyed-Run : Audio.Run (initialize true) 6 destroyed
unfolding destroy busy Audio.start
destroyed-Run = Audio.next busy-Run (Audio.destroys refl)

abbrev returned : Processor
unfolding call_returns
returned = call_returns destroyed

returned-Run : Audio.Run destroyed 1 returned
unfolding destroy busy call_returns Audio.start
returned-Run = Audio.next Audio.here (Audio.returns (3 ∷ []) refl)

delivered-Sublist_example : Sublist busy.delivered busy.fed
delivered-Sublist_example = delivered-Sublist true 5 busy busy-Run

is_destroyed : destroyed.destroyed ≡ true
unfolding destroy busy initialize feed take_front Audio.start
is_destroyed = refl

destroyed_ends_example :
    (1 ≤ 2) × ((returned.thread_at ≡ ended) ⊎ ((r : Processor) × Audio.Step returned r))
destroyed_ends_example =
    destroyed_ends true 6 1 destroyed returned destroyed-Run is_destroyed returned-Run

-- A codec that records at 100 samples a second, so that a frame has six.
abbrev codec : Codec
codec = record (closed 100 100 samples) { stream_in = true; input_enabled = true }

abbrev running : Processor
running = Audio.start (initialize true)

running-Reach : Input.Reach codec (initialize true) codec running
running-Reach = Input.next Input.here Input.starts

running_is : (running.is_running ≡ true) × (running.has_thread ≡ true)
unfolding initialize Audio.start
running_is = (refl, refl)

enough : frame_size codec.input_sample_rate * 2 < to_size_t (pos 20)
unfolding to_size_t
enough = omega arith

on_audio_input_frame_example :
    let g = got (4 ∷ 5 ∷ []) in
    let r = on_audio_input (pos 20) g codec running in
    let heard = heard_samples g codec in
    let frame = heard ++ replicate (frame_size codec.input_sample_rate - length heard) 0 in
    (r.processor.queue ≡ running.queue ++ (frame ∷ []))
    × (length frame ≡ frame_size codec.input_sample_rate)
    × (r.delays ≡ false)
on_audio_input_frame_example =
    on_audio_input_frame (pos 20) (got (4 ∷ 5 ∷ [])) codec running running_is.0 running_is.1 enough
      (omega arith) (omega arith)

abbrev heard_codec : Codec
heard_codec = (on_audio_input (negsuc 0) failed codec running).codec

abbrev heard_processor : Processor
heard_processor = (on_audio_input (negsuc 0) failed codec running).processor

heard-Reach : Input.Reach codec (initialize true) heard_codec heard_processor
heard-Reach = Input.next running-Reach (Input.hears (negsuc 0) failed)

thread_does_not_end_example : (heard_processor.thread_at ≢ ended) × AreFrames heard_processor.queue
thread_does_not_end_example = thread_does_not_end codec heard_codec heard_processor heard-Reach

-- An encoder that gives one byte, and a decoder that gives as many frames as it may.
abbrev give_byte : Bytes → ℤ × Bytes
give_byte [] = (negsuc 0, [])
give_byte (b ∷ bs) = (pos 1, 9 ∷ bs)

abbrev library : Library
library = record {
  opus_encode = λ xs frames buffer. give_byte buffer;
  opus_decode = λ bytes buffer frames. (pos frames, buffer);
}

give_byte_size : (n : ℕ) (buffer : Bytes) → (give_byte buffer).0 ≡ pos n → n ≤ length buffer
give_byte_size n [] e = cc
give_byte_size n (b ∷ bs) e = omega (arith, pos_injective e)
  where
    pos_injective : pos 1 ≡ pos n → n ≡ 1
    pos_injective h = cc

length-give_byte : (buffer : Bytes) → length (give_byte buffer).1 ≡ length buffer
length-give_byte [] = refl
length-give_byte (b ∷ bs) = refl

library-IsBounded : IsBounded library
library-IsBounded = record {
  encode_size = λ xs frames n buffer e. give_byte_size n buffer e;
  encode_buffer = λ xs frames buffer. length-give_byte buffer;
  decode_size = λ bytes buffer frames n e. omega (arith, frames_lem frames n e);
  decode_buffer = λ bytes buffer frames. refl;
}
  where
    frames_lem : (frames n : ℕ) → pos frames ≡ pos n → n ≡ frames
    frames_lem frames n h = cc

abbrev encoder : Encoder
encoder = record { has_encoder = true; channels = 1 }

abbrev decoder : Decoder
decoder = record { has_decoder = true; sample_rate = 16000; channels = 2; duration_ms = 60 }

coded_sizes_test :
    IsGoodPacket (encode library encoder (1 ∷ 2 ∷ []))
    × IsGoodPcm decoder.channels (decode library decoder (7 ∷ []))
coded_sizes_test =
    coded_sizes library encoder decoder (1 ∷ 2 ∷ []) (7 ∷ []) library-IsBounded refl refl
