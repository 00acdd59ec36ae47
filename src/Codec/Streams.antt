-- ===== src/Codec/Streams.antt =====
-- audio_codec.cc and porting/impl/sdl_audio_codec.cc: the devices run as the codec's flags say.
use xiaozhi_pc.Base.{not, ◌&&◌, ◌||◌, ℕ, ◌≡◌, Bool, true, false, Option, List, [], ◌∷◌, arith}
use xiaozhi_pc.Base.Text.{Bytes}
use xiaozhi_pc.Codec.{
  Side, playback, recording, Call, open_device, bind_stream, pause_device, resume_stream_device,
  pause_stream_device, close_device, Codec, Got, failed, got, Opened, enable_input, enable_output,
  start, read, write, set_output_format, set_output_volume, open_recording, open_codec,
}
use xiaozhi_pc.Base.Int.{ℤ}
use xiaozhi_pc.Display.{Samples}

-- A use of the codec.
pub data Operation : Type 0 where
  starts : Operation
  enables_input enables_output : Bool → Operation
  reads : Got → List ℕ → Operation
  writes : Bool → List ℕ → Operation
  sets_output_format : ℕ → ℕ → Operation
  sets_output_volume : ℤ → Operation

unfoldable pub apply : Operation → Codec → Codec
unfolding start enable_input enable_output read write set_output_format set_output_volume
apply starts c = start c
apply (enables_input b) c = enable_input b c
apply (enables_output b) c = enable_output b c
apply (reads g dest) c = (read g dest c).codec
apply (writes ok xs) c = (write ok xs c).1
apply (sets_output_format rate channels) c = set_output_format rate channels c
apply (sets_output_volume volume) c = set_output_volume volume c

unfoldable pub apply_all : List Operation → Codec → Codec
unfolding apply
apply_all [] c = c
apply_all (o ∷ os) c = apply_all os (apply o c)

abbrev if_side : Side → Side → Bool → Bool → Bool
if_side playback playback x y = x
if_side recording recording x y = x
if_side _ _ x y = y

-- Whether the stream of a side was bound to its device.
abbrev pub bound : Side → List Call → Bool
bound s [] = false
bound s (bind_stream t ok ∷ cs) = let b = bound s cs in if_side s t ok b
bound s (_ ∷ cs) = bound s cs

-- Whether the device of a side runs, by what SDL was told: a device runs from when it is opened, but
-- for a pause. A stream that is bound to no device, or is null, resumes and pauses nothing.
abbrev pub runs : Side → List Call → Bool
runs s [] = false
runs s (open_device t device ok ∷ cs) = let b = runs s cs in if_side s t ok b
runs s (pause_device t ∷ cs) = let b = runs s cs in if_side s t false b
runs s (resume_stream_device t ∷ cs) = let b = runs s cs in if_side s t (bound s cs || b) b
runs s (pause_stream_device t ∷ cs) = let b = runs s cs in if_side s t (not (bound s cs) && b) b
runs s (close_device t ∷ cs) = let b = runs s cs in if_side s t false b
runs s (_ ∷ cs) = runs s cs

-- The window shows the flags, a bound stream is there, and the device of a side runs when its stream is bound
-- and it is enabled, and only then.
pub record IsConsistent (c : Codec) : Type 0 where
  pub shows_input : c.ui_input_enabled ≡ c.input_enabled
  pub shows_output : c.ui_output_enabled ≡ c.output_enabled
  pub input_there : bound recording c.calls ≡ true → c.stream_in ≡ true
  pub output_there : bound playback c.calls ≡ true → c.stream_out ≡ true
  pub input_runs : runs recording c.calls ≡ (bound recording c.calls && c.input_enabled)
  pub output_runs : runs playback c.calls ≡ (bound playback c.calls && c.output_enabled)

enable_input-IsConsistent :
    (b : Bool) (c : Codec) → IsConsistent c → IsConsistent (enable_input b c)
unfolding enable_input
enable_input-IsConsistent true c v = record {
  shows_input = ground (arith, v.shows_input);
  shows_output = ground (arith, v.shows_output);
  input_there = ground (arith, v.input_there);
  output_there = ground (arith, v.output_there);
  input_runs = ground (arith, v.input_runs, v.input_there);
  output_runs = ground (arith, v.output_runs, v.output_there);
}
enable_input-IsConsistent false c v = record {
  shows_input = ground (arith, v.shows_input);
  shows_output = ground (arith, v.shows_output);
  input_there = ground (arith, v.input_there);
  output_there = ground (arith, v.output_there);
  input_runs = ground (arith, v.input_runs, v.input_there);
  output_runs = ground (arith, v.output_runs, v.output_there);
}

enable_output-IsConsistent :
    (b : Bool) (c : Codec) → IsConsistent c → IsConsistent (enable_output b c)
unfolding enable_output
enable_output-IsConsistent true c v = record {
  shows_input = ground (arith, v.shows_input);
  shows_output = ground (arith, v.shows_output);
  input_there = ground (arith, v.input_there);
  output_there = ground (arith, v.output_there);
  input_runs = ground (arith, v.input_runs, v.input_there);
  output_runs = ground (arith, v.output_runs, v.output_there);
}
enable_output-IsConsistent false c v = record {
  shows_input = ground (arith, v.shows_input);
  shows_output = ground (arith, v.shows_output);
  input_there = ground (arith, v.input_there);
  output_there = ground (arith, v.output_there);
  input_runs = ground (arith, v.input_runs, v.input_there);
  output_runs = ground (arith, v.output_runs, v.output_there);
}

-- What SDL is told of the formats and the samples starts and stops no device.
set_output_format-IsConsistent :
    (rate channels : ℕ) (c : Codec)
    → IsConsistent c
    → IsConsistent (set_output_format rate channels c)
unfolding set_output_format
set_output_format-IsConsistent rate channels c v = record {
  shows_input = ground (arith, v.shows_input);
  shows_output = ground (arith, v.shows_output);
  input_there = ground (arith, v.input_there);
  output_there = ground (arith, v.output_there);
  input_runs = ground (arith, v.input_runs, v.input_there);
  output_runs = ground (arith, v.output_runs, v.output_there);
}

write-IsConsistent :
    (ok : Bool) (xs : List ℕ) (c : Codec) → IsConsistent c → IsConsistent (write ok xs c).1
unfolding write
write-IsConsistent ok xs c v = record {
  shows_input = ground (arith, v.shows_input);
  shows_output = ground (arith, v.shows_output);
  input_there = ground (arith, v.input_there);
  output_there = ground (arith, v.output_there);
  input_runs = ground (arith, v.input_runs, v.input_there);
  output_runs = ground (arith, v.output_runs, v.output_there);
}

read-IsConsistent :
    (g : Got) (dest : List ℕ) (c : Codec) → IsConsistent c → IsConsistent (read g dest c).codec
unfolding read
read-IsConsistent failed dest c v = v
read-IsConsistent (got xs) dest c v = record {
  shows_input = ground (arith, v.shows_input);
  shows_output = ground (arith, v.shows_output);
  input_there = ground (arith, v.input_there);
  output_there = ground (arith, v.output_there);
  input_runs = ground (arith, v.input_runs, v.input_there);
  output_runs = ground (arith, v.output_runs, v.output_there);
}

apply-IsConsistent : (o : Operation) (c : Codec) → IsConsistent c → IsConsistent (apply o c)
unfolding apply start set_output_volume
apply-IsConsistent starts c v =
    enable_output-IsConsistent true (enable_input true c) (enable_input-IsConsistent true c v)
apply-IsConsistent (enables_input b) c v = enable_input-IsConsistent b c v
apply-IsConsistent (enables_output b) c v = enable_output-IsConsistent b c v
apply-IsConsistent (reads g dest) c v = read-IsConsistent g dest c v
apply-IsConsistent (writes ok xs) c v = write-IsConsistent ok xs c v
apply-IsConsistent (sets_output_volume volume) c v = record {
  shows_input = v.shows_input;
  shows_output = v.shows_output;
  input_there = v.input_there;
  output_there = v.output_there;
  input_runs = v.input_runs;
  output_runs = v.output_runs;
}
apply-IsConsistent (sets_output_format rate channels) c v =
    set_output_format-IsConsistent rate channels c v

apply_all-IsConsistent :
    (os : List Operation) (c : Codec) → IsConsistent c → IsConsistent (apply_all os c)
unfolding apply_all
apply_all-IsConsistent [] c v = v
apply_all-IsConsistent (o ∷ os) c v =
    apply_all-IsConsistent os (apply o c) (apply-IsConsistent o c v)

-- However far the constructor comes, no device runs after it.
open_codec-IsConsistent :
    (o : Opened) (devname : Option Bytes) (devices : List (ℕ × Bytes)) (input_rate output_rate : ℕ)
    (samples : Samples)
    → IsConsistent (open_codec o devname devices input_rate output_rate samples)
unfolding open_codec open_recording
open_codec-IsConsistent o devname devices input_rate output_rate samples = record {
  shows_input = ground arith;
  shows_output = ground arith;
  input_there = ground arith;
  output_there = ground arith;
  input_runs = ground arith;
  output_runs = ground arith;
}

-- Whatever SDL answers when the codec is opened, and after any sequence of operations, the flags that
-- the window shows are the codec's, a stream that SDL bound is there, and the device of each side runs exactly when
-- its stream was bound and the codec has the side enabled: a device whose stream could not be bound never runs.
pub open_codec-apply_all-IsConsistent :
    (o : Opened) (devname : Option Bytes) (devices : List (ℕ × Bytes)) (input_rate output_rate : ℕ)
    (samples : Samples) (os : List Operation)
    → IsConsistent (apply_all os (open_codec o devname devices input_rate output_rate samples))
open_codec-apply_all-IsConsistent o devname devices input_rate output_rate samples os =
    apply_all-IsConsistent os (open_codec o devname devices input_rate output_rate samples)
      (open_codec-IsConsistent o devname devices input_rate output_rate samples)
