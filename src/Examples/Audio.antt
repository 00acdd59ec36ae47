-- ===== src/Examples/Audio.antt =====
-- The codec and the window.
use xiaozhi_pc.Base.{
  ℕ, ◌<◌, ◌≡◌, refl, true, false, some, List, [], ◌∷◌, arith, length, replicate, length-replicate,
}
use xiaozhi_pc.Base.Text.{Bytes, codes}
use xiaozhi_pc.Display.{Samples, update_sample_display}
use xiaozhi_pc.Display.Ring.{IsReady, push_samples, update_sample_display_in}
use xiaozhi_pc.Display.Window.Trigger.{IsTrigger, start_index-IsTrigger}
use xiaozhi_pc.Display.Window.{compute_mod, delay, start_index}
use xiaozhi_pc.Base.Int.{sub_nat}
use xiaozhi_pc.Base.{length}
use xiaozhi_pc.Display.Window.{DrawCall, audio_display, draw_window}
use xiaozhi_pc.Display.Window.Drawn.{AreInside, half_top, audio_display-some}
use xiaozhi_pc.Codec.{Opened, got, open_codec}
use xiaozhi_pc.Codec.Streams.{
  Operation, starts, enables_output, reads, writes, sets_output_format, apply_all, IsConsistent,
  open_codec-apply_all-IsConsistent,
}
use xiaozhi_pc.Codec.PlaybackFormat.{playback_format, playback_format-apply_all}
use xiaozhi_pc.Codec.Shown.{draw_window-apply_all}

abbrev pub samples : Samples
samples = record { array_in = 0 ∷ 0 ∷ 0 ∷ []; array_out = 9 ∷ []; index = 2 }

update_sample_display_in_example :
    let t = update_sample_display true (1 ∷ 2 ∷ 3 ∷ 4 ∷ []) samples in
    ((t.array_in, t.index) ≡ push_samples (samples.array_in, samples.index) (1 ∷ 2 ∷ 3 ∷ 4 ∷ []))
    × (t.array_out ≡ samples.array_out)
    × (t.index < length t.array_in)
    × (length t.array_in ≡ length samples.array_in)
update_sample_display_in_example =
    update_sample_display_in (1 ∷ 2 ∷ 3 ∷ 4 ∷ []) samples (omega arith)

abbrev long_samples : Samples
long_samples = record { array_in = replicate 1200 7; array_out = replicate 1200 40000; index = 3 }

long-IsReady : IsReady 1200 long_samples
long-IsReady = record {
  in_length = length-replicate {A = ℕ} 1200 7;
  out_length = length-replicate {A = ℕ} 1200 40000;
  inside = omega arith;
}

audio_display-some_test :
    (cs : List DrawCall) × (audio_display false true long_samples ≡ some cs)
    × AreInside (half_top false) cs
audio_display-some_test =
    audio_display-some false true long_samples (omega (arith, length-replicate {A = ℕ} 1200 40000))
      (omega (arith, length-replicate {A = ℕ} 1200 40000))

-- Everything could be opened.
abbrev all_open : Opened
all_open = record {
  playback_device = true;
  out_created = true;
  out_bound = true;
  recording_device = true;
  in_created = true;
  in_bound = true;
}

abbrev devices : List (ℕ × Bytes)
devices = (2, codes "line") ∷ (5, codes "mic") ∷ []

abbrev operations : List Operation
operations =
    starts
    ∷ reads (got (1 ∷ 2 ∷ [])) (0 ∷ 0 ∷ 0 ∷ [])
    ∷ sets_output_format 24000 1
    ∷ writes true (8 ∷ [])
    ∷ enables_output false
    ∷ []

open_codec-apply_all-IsConsistent_example :
    IsConsistent
      (apply_all operations (open_codec all_open (some (codes "mic")) devices 16000 16000 samples))
open_codec-apply_all-IsConsistent_example =
    open_codec-apply_all-IsConsistent all_open (some (codes "mic")) devices 16000 16000 samples
      operations

out_is_open :
    (open_codec all_open (some (codes "mic")) devices 16000 16000 samples).stream_out ≡ true
unfolding open_codec
out_is_open = refl

playback_format-apply_all_example :
    playback_format
      (apply_all operations
        (open_codec all_open (some (codes "mic")) devices 16000 16000 samples)).calls
    ≡ some (record { freq = 16000; channels = 1 })
playback_format-apply_all_example =
    playback_format-apply_all all_open (some (codes "mic")) devices 16000 16000 samples operations
      out_is_open

draw_window-apply_all_example :
    let c =
      apply_all operations
        (open_codec all_open (some (codes "mic")) devices 16000 16000 long_samples) in
    (cs : List DrawCall) × (draw_window c.ui_input_enabled c.ui_output_enabled c.samples ≡ some cs)
draw_window-apply_all_example =
    draw_window-apply_all 1200 all_open (some (codes "mic")) devices 16000 16000 long_samples
      operations (omega arith) long-IsReady

start_index-IsTrigger_example :
    let x = compute_mod (sub_nat 3 delay) (length long_samples.array_out) in
    (p : ℕ) × (start_index true long_samples.array_out 3 ≡ some p)
    × IsTrigger long_samples.array_out x 1000 p
start_index-IsTrigger_example =
    start_index-IsTrigger long_samples.array_out 3
      (omega (arith, length-replicate {A = ℕ} 1200 40000))
