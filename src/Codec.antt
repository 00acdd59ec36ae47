-- ===== src/Codec.antt =====
-- audio_codec.cc and porting/impl/sdl_audio_codec.cc: the codec over two SDL audio streams. What SDL is
-- told is a trace, the latest call first. What SDL answers is an argument of the operation.
pub mod Streams
pub mod PlaybackFormat
pub mod Shown
use xiaozhi_pc.Base.{
  ℕ, Bool, true, false, not, ◌&&◌, Option, none, some, List, [], ◌∷◌, ◌++◌, if◌then◌else◌, ltb,
  drop, length,
}
use xiaozhi_pc.Base.Text.{Bytes, text_eq}
use xiaozhi_pc.Base.Int.{ℤ, pos}
use xiaozhi_pc.Display.{Samples, update_sample_display}

-- The stream of the playback device, and that of the recording device.
pub data Side : Type 0 where
  playback recording : Side

-- The format that the program's side of a stream has.
pub record Format : Type 0 where
  pub freq : ℕ
  pub channels : ℕ

-- The flags are what `SDL_OpenAudioDevice` and `SDL_BindAudioStream` return.
pub data Call : Type 0 where
  open_device : Side → ℕ → Bool → Call
  pause_device : Side → Call
  create_stream : Side → Format → Call
  bind_stream : Side → Bool → Call
  resume_stream_device : Side → Call
  pause_stream_device : Side → Call
  flush_stream : Side → Call
  -- `SDL_SetAudioStreamFormat(stream, &spec, NULL)`
  set_stream_format : Side → Format → Call
  put_stream : List ℕ → Call
  close_device : Side → Call
  destroy_stream : Side → Call

pub record Codec : Type 0 where
  pub input_enabled : Bool
  pub output_enabled : Bool
  pub input_sample_rate : ℕ
  pub output_sample_rate : ℕ
  pub input_channels : ℕ
  pub output_channels : ℕ
  pub output_volume : ℤ
  -- whether the pointers are not null
  pub stream_in : Bool
  pub stream_out : Bool
  pub calls : List Call
  -- `input_enabled`, `output_enabled` and the arrays of `ui_thread.cc`
  pub ui_input_enabled : Bool
  pub ui_output_enabled : Bool
  pub samples : Samples

abbrev pub tell : List Call → Codec → Codec
tell cs c = record c { calls = cs ++ c.calls }

unfoldable pub enable_input : Bool → Codec → Codec
enable_input true c = if c.input_enabled then c else record c {
  calls = if c.stream_in then resume_stream_device recording ∷ c.calls else c.calls;
  input_enabled = true;
  ui_input_enabled = true;
}
enable_input false c =
    if c.input_enabled
    then record c {
      calls =
          if c.stream_in
          then flush_stream recording ∷ pause_stream_device recording ∷ c.calls
          else c.calls;
      input_enabled = false;
      ui_input_enabled = false;
    }
    else c

unfoldable pub enable_output : Bool → Codec → Codec
enable_output true c = if c.output_enabled then c else record c {
  calls = if c.stream_out then resume_stream_device playback ∷ c.calls else c.calls;
  output_enabled = true;
  ui_output_enabled = true;
}
enable_output false c =
    if c.output_enabled
    then record c {
      calls =
          if c.stream_out
          then flush_stream playback ∷ pause_stream_device playback ∷ c.calls
          else c.calls;
      output_enabled = false;
      ui_output_enabled = false;
    }
    else c

-- `AudioCodec::SetOutputVolume`, which reaches no stream.
unfoldable pub set_output_volume : ℤ → Codec → Codec
set_output_volume volume c = record c { output_volume = volume }

-- `AudioCodec::Start`
unfoldable pub start : Codec → Codec
unfolding enable_input enable_output
start c = enable_output true (enable_input true c)

-- What `SDL_GetAudioStreamData` gives: a failure, or the samples it wrote to `dest`.
pub data Got : Type 0 where
  failed : Got
  got : List ℕ → Got

-- `dest` after as many of its samples as there are were overwritten
abbrev pub overwrite : List ℕ → List ℕ → List ℕ
overwrite xs dest = xs ++ drop (length xs) dest

-- The samples that were read, the buffer, and the codec.
pub record ReadResult : Type 0 where
  pub samples_read : ℕ
  pub dest : List ℕ
  pub codec : Codec

unfoldable pub read : Got → List ℕ → Codec → ReadResult
unfolding update_sample_display
read failed dest c = record { samples_read = 0; dest = dest; codec = c }
read (got xs) dest c =
    if c.input_enabled && c.stream_in
    then record {
      samples_read = length xs;
      dest = overwrite xs dest;
      codec = record c { samples = update_sample_display true xs c.samples };
    }
    else record { samples_read = 0; dest = dest; codec = c }

-- The flag is what `SDL_PutAudioStreamData` returns.
unfoldable pub write : Bool → List ℕ → Codec → ℕ × Codec
unfolding update_sample_display
write put_ok xs c =
    if c.output_enabled && c.stream_out
    then (
      if put_ok then length xs else 0,
      record c {
        samples = update_sample_display false xs c.samples;
        calls = put_stream xs ∷ c.calls;
      },
    )
    else (0, c)

-- `AudioCodec::OutputData`
unfoldable pub output_data : Bool → List ℕ → Codec → Codec
unfolding write
output_data put_ok xs c = (write put_ok xs c).1

-- `AudioCodec::InputData`
unfoldable pub input_data : Got → List ℕ → Codec → Bool × ReadResult
unfolding read
input_data g dest c = let r = read g dest c in (ltb 0 r.samples_read, r)

unfoldable pub set_output_format : ℕ → ℕ → Codec → Codec
set_output_format sample_rate channels c =
    let spec : Format = record { freq = sample_rate; channels = channels } in
    if c.output_enabled
    then tell
        (resume_stream_device playback
          ∷ set_stream_format recording spec
          ∷ flush_stream playback
          ∷ pause_stream_device playback
          ∷ [])
        c
    else tell (set_stream_format recording spec ∷ []) c

-- `SDL_AUDIO_DEVICE_DEFAULT_RECORDING` and `SDL_AUDIO_DEVICE_DEFAULT_PLAYBACK`
abbrev pub default_recording : ℕ
default_recording = 4294967294

abbrev pub default_playback : ℕ
default_playback = 4294967295

-- The loop over the recording devices: the last one of that name.
unfoldable pub want_device : Bytes → ℕ → List (ℕ × Bytes) → ℕ
want_device devname want [] = want
want_device devname want ((device, name) ∷ devices) =
    want_device devname (if text_eq devname name then device else want) devices

unfoldable pub choose_device : Option Bytes → List (ℕ × Bytes) → ℕ
unfolding want_device
choose_device none devices = default_recording
choose_device (some devname) devices = want_device devname default_recording devices

-- What the calls of the constructor return, in its order.
pub record Opened : Type 0 where
  pub playback_device : Bool
  pub out_created : Bool
  pub out_bound : Bool
  pub recording_device : Bool
  pub in_created : Bool
  pub in_bound : Bool

-- Before the first call: the members' defaults and the sample rates.
abbrev pub closed : ℕ → ℕ → Samples → Codec
closed input_rate output_rate samples = record {
  input_enabled = false;
  output_enabled = false;
  input_sample_rate = input_rate;
  output_sample_rate = output_rate;
  input_channels = 1;
  output_channels = 1;
  output_volume = pos 70;
  stream_in = false;
  stream_out = false;
  calls = [];
  ui_input_enabled = false;
  ui_output_enabled = false;
  samples = samples;
}

-- The second half of the constructor, from the opening of the recording device on.
unfoldable pub open_recording : Opened → ℕ → Codec → Codec
open_recording o device c =
    let spec : Format = record { freq = c.input_sample_rate; channels = 1 } in
    let begun : List Call =
      create_stream recording spec
      ∷ pause_device recording
      ∷ open_device recording device o.recording_device
      ∷ [] in
    if not o.recording_device
    then tell (open_device recording device o.recording_device ∷ []) c
    else if not o.in_created
    then tell begun c
    else record c { calls = bind_stream recording o.in_bound ∷ begun ++ c.calls; stream_in = true }

-- `SdlAudioCodec::SdlAudioCodec`
unfoldable pub open_codec : Opened → Option Bytes → List (ℕ × Bytes) → ℕ → ℕ → Samples → Codec
unfolding open_recording choose_device
open_codec o devname devices input_rate output_rate samples =
    let c = closed input_rate output_rate samples in
    let spec : Format = record { freq = input_rate; channels = 1 } in
    let begun : List Call =
      create_stream playback spec
      ∷ pause_device playback
      ∷ open_device playback default_playback o.playback_device
      ∷ [] in
    let out : Codec = record c {
      calls = bind_stream playback o.out_bound ∷ begun;
      stream_out = true;
    } in
    if not o.playback_device
    then tell (open_device playback default_playback o.playback_device ∷ []) c
    else if not o.out_created
    then tell begun c
    else if not o.out_bound
    then out
    else open_recording o (choose_device devname devices) out

abbrev close_side : Side → Bool → List Call → List Call
close_side s true calls = destroy_stream s ∷ close_device s ∷ calls
close_side s false calls = calls

-- `SdlAudioCodec::~SdlAudioCodec`: all that SDL was told in the end.
unfoldable pub close_codec : Codec → List Call
close_codec c = close_side playback c.stream_out (close_side recording c.stream_in c.calls)
