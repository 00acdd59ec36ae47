-- ===== src/Codec/PlaybackFormat.antt =====
-- porting/impl/sdl_audio_codec.cc: the format in which SDL takes the samples that are played.
use xiaozhi_pc.Base.{ℕ, ◌≡◌, refl, ◌∙◌, Bool, true, false, Option, none, some, List, [], ◌∷◌, arith}
use xiaozhi_pc.Base.Text.{Bytes}
use xiaozhi_pc.Codec.{
  Format, playback, Call, create_stream, set_stream_format, Codec, failed, got, Opened,
  enable_input, enable_output, start, read, write, set_output_format, set_output_volume,
  open_recording, open_codec,
}
use xiaozhi_pc.Codec.Streams.{
  Operation, starts, enables_input, enables_output, reads, writes, sets_output_format,
  sets_output_volume, apply, apply_all,
}
use xiaozhi_pc.Display.{Samples}

-- The format of the program's side of the playback stream: the latest one that SDL was told.
abbrev pub playback_format : List Call → Option Format
playback_format [] = none
playback_format (create_stream playback f ∷ cs) = some f
playback_format (set_stream_format playback f ∷ cs) = some f
playback_format (_ ∷ cs) = playback_format cs

enable_output_format :
    (b : Bool) (c : Codec) → playback_format (enable_output b c).calls ≡ playback_format c.calls
unfolding enable_output
enable_output_format true c = ground arith
enable_output_format false c = ground arith

enable_input_format :
    (b : Bool) (c : Codec) → playback_format (enable_input b c).calls ≡ playback_format c.calls
unfolding enable_input
enable_input_format true c = ground arith
enable_input_format false c = ground arith

apply_format :
    (o : Operation) (c : Codec) → playback_format (apply o c).calls ≡ playback_format c.calls
unfolding apply start read write set_output_format set_output_volume
apply_format starts c = enable_output_format true (enable_input true c) ∙ enable_input_format true c
apply_format (enables_input b) c = enable_input_format b c
apply_format (enables_output b) c = enable_output_format b c
apply_format (reads failed dest) c = refl
apply_format (reads (got xs) dest) c = ground arith
apply_format (writes ok xs) c = ground arith
apply_format (sets_output_format rate channels) c = ground arith
apply_format (sets_output_volume volume) c = refl

apply_all_format :
    (os : List Operation) (c : Codec)
    → playback_format (apply_all os c).calls ≡ playback_format c.calls
unfolding apply_all
apply_all_format [] c = refl
apply_all_format (o ∷ os) c = apply_all_format os (apply o c) ∙ apply_format o c

open_codec_format :
    (o : Opened) (devname : Option Bytes) (devices : List (ℕ × Bytes)) (input_rate output_rate : ℕ)
    (samples : Samples)
    → let c = open_codec o devname devices input_rate output_rate samples in
      c.stream_out ≡ true
      → playback_format c.calls ≡ some (record { freq = input_rate; channels = 1 })
unfolding open_codec open_recording
open_codec_format o devname devices input_rate output_rate samples h = ground arith

-- When the playback stream could be opened, SDL takes the samples for it as mono samples of the
-- input rate, whatever the output rate is, and after any sequence of operations, those that set the
-- output format included.
pub playback_format-apply_all :
    (o : Opened) (devname : Option Bytes) (devices : List (ℕ × Bytes)) (input_rate output_rate : ℕ)
    (samples : Samples) (os : List Operation)
    → (open_codec o devname devices input_rate output_rate samples).stream_out ≡ true
    → playback_format
        (apply_all os (open_codec o devname devices input_rate output_rate samples)).calls
      ≡ some (record { freq = input_rate; channels = 1 })
playback_format-apply_all o devname devices input_rate output_rate samples os h =
    apply_all_format os (open_codec o devname devices input_rate output_rate samples)
    ∙ open_codec_format o devname devices input_rate output_rate samples h
