-- ===== src/Codec/Shown.antt =====
-- audio_codec.cc and porting/impl/ui_thread.cc: the codec's samples can always be shown.
use xiaozhi_pc.Base.{
  ℕ, ◌<◌, ◌≡◌, refl, sym, ◌∙◌, Bool, true, false, ◌&&◌, Option, some, List, [], ◌∷◌, ◌++◌, arith,
  if_cases, subst, if◌then◌else◌,
}
use xiaozhi_pc.Base.Text.{Bytes}
use xiaozhi_pc.Codec.{
  set_output_volume, Codec, failed, got, ReadResult, Opened, enable_input, enable_output, start,
  read, write, set_output_format, open_recording, open_codec,
}
use xiaozhi_pc.Codec.Streams.{
  Operation, starts, enables_input, enables_output, reads, writes, sets_output_format,
  sets_output_volume, apply, apply_all,
}
use xiaozhi_pc.Display.{Samples}
use xiaozhi_pc.Display.Ring.{IsReady, update_sample_display-IsReady}
use xiaozhi_pc.Display.Window.{DrawCall, set_draw_color, clear, present, delay, draw_window}
use xiaozhi_pc.Display.Window.Drawn.{audio_display-some}

enable_input_samples : (b : Bool) (c : Codec) → (enable_input b c).samples ≡ c.samples
unfolding enable_input
enable_input_samples true c = ground arith
enable_input_samples false c = ground arith

enable_output_samples : (b : Bool) (c : Codec) → (enable_output b c).samples ≡ c.samples
unfolding enable_output
enable_output_samples true c = ground arith
enable_output_samples false c = ground arith

set_output_format_samples :
    (rate channels : ℕ) (c : Codec) → (set_output_format rate channels c).samples ≡ c.samples
unfolding set_output_format
set_output_format_samples rate channels c = ground arith

open_codec_samples :
    (o : Opened) (devname : Option Bytes) (devices : List (ℕ × Bytes)) (input_rate output_rate : ℕ)
    (samples : Samples)
    → (open_codec o devname devices input_rate output_rate samples).samples ≡ samples
unfolding open_codec open_recording
open_codec_samples o devname devices input_rate output_rate samples = ground arith

module _ (n : ℕ) where
  apply-IsReady : (o : Operation) (c : Codec) → IsReady n c.samples → IsReady n (apply o c).samples
  unfolding apply start read write set_output_volume
  apply-IsReady starts c v =
      subst (IsReady n)
        (sym (enable_output_samples true (enable_input true c) ∙ enable_input_samples true c)) v
  apply-IsReady (enables_input b) c v = subst (IsReady n) (sym (enable_input_samples b c)) v
  apply-IsReady (enables_output b) c v = subst (IsReady n) (sym (enable_output_samples b c)) v
  apply-IsReady (reads failed dest) c v = v
  apply-IsReady (reads (got xs) dest) c v =
      if_cases (λ (r : ReadResult). IsReady n r.codec.samples) (c.input_enabled && c.stream_in) _ _
        (λ on. update_sample_display-IsReady true xs n c.samples v) (λ off. v)
  apply-IsReady (writes ok xs) c v =
      if_cases (λ (r : ℕ × Codec). IsReady n (r.1).samples) (c.output_enabled && c.stream_out) _ _
        (λ on. update_sample_display-IsReady false xs n c.samples v) (λ off. v)
  apply-IsReady (sets_output_volume volume) c v = v
  apply-IsReady (sets_output_format rate channels) c v =
      subst (IsReady n) (sym (set_output_format_samples rate channels c)) v

  apply_all-IsReady :
      (os : List Operation) (c : Codec) → IsReady n c.samples → IsReady n (apply_all os c).samples
  unfolding apply_all
  apply_all-IsReady [] c v = v
  apply_all-IsReady (o ∷ os) c v = apply_all-IsReady os (apply o c) (apply-IsReady o c v)

draw_window-some :
    (n : ℕ) (input_enabled output_enabled : Bool) (s : Samples)
    → delay < n
    → IsReady n s
    → (cs : List DrawCall) × (draw_window input_enabled output_enabled s ≡ some cs)
unfolding draw_window
draw_window-some n input_enabled output_enabled s big v =
    let (top, e, _) =
      audio_display-some true output_enabled s (omega (arith, v.in_length, v.inside))
        (omega (arith, v.in_length)) in
    let (bottom, e', _) =
      audio_display-some false output_enabled s (omega (arith, v.out_length, v.inside))
        (omega (arith, v.out_length)) in
    (
      (if input_enabled then set_draw_color 0 255 0 else set_draw_color 255 0 0) ∷ clear ∷ top
          ++ (bottom ++ (present ∷ [])),
      rw (e, e') refl,
    )

-- Whatever SDL answers, after any sequence of operations on a codec, the window's thread draws its
-- picture without an access outside the sample arrays, with the flags that the codec has set, if at
-- the beginning both arrays are as long, longer than 1120 samples, and the index is inside.
pub draw_window-apply_all :
    (n : ℕ) (o : Opened) (devname : Option Bytes) (devices : List (ℕ × Bytes))
    (input_rate output_rate : ℕ) (samples : Samples) (os : List Operation)
    → delay < n
    → IsReady n samples
    → let c = apply_all os (open_codec o devname devices input_rate output_rate samples) in
      (cs : List DrawCall) × (draw_window c.ui_input_enabled c.ui_output_enabled c.samples
        ≡ some cs)
draw_window-apply_all n o devname devices input_rate output_rate samples os big v =
    let c = open_codec o devname devices input_rate output_rate samples in
    draw_window-some n (apply_all os c).ui_input_enabled (apply_all os c).ui_output_enabled
      (apply_all os c).samples big
      (apply_all-IsReady n os c (
        subst (IsReady n)
          (sym (open_codec_samples o devname devices input_rate output_rate samples)) v))
