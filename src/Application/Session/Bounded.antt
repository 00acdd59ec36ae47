-- ===== src/Application/Session/Bounded.antt =====
-- application.cc: the bound on the decode queue holds after any events.
use Prim.Native.String.{String}
use text.Mathlib.Text.{◌==◌ as str_eq}
use xiaozhi_pc.Base.{
  ◌≤◌, ◌≡◌, refl, ap, subst, Bool, true, false, inl, inr, Option, none, some, List, [], ◌∷◌, arith,
  if◌then◌else◌, length, length-append, Option-cases,
}
use xiaozhi_pc.Application.State.{DeviceState, AudioStreamPacket, Task, BackgroundJob, Opus, App}
use xiaozhi_pc.Application.Audio.{
  on_incoming_audio, audio_loop_output, max_packets_in_queue, reset_decoder, schedule_background,
}
use xiaozhi_pc.Application.Device.{SendResult, dismiss_alert}
use xiaozhi_pc.Application.Handlers.{
  Answers, Item, absent, value, abort_speaking_later, on_goodbye, toggle_chat_state,
  on_incoming_json, on_tts, on_alert,
}
use xiaozhi_pc.Application.Bounds.{run_job-Keeps}
use xiaozhi_pc.Application.Session.{
  Event, incoming_audio, incoming_json, audio_round, processor_output, background_step, main_step,
  toggle, abort_key, goodbye, dismiss, clock_tick, background_job, main_task, step, run,
}
use xiaozhi_pc.Application.Session.Lengths.{decode_length, set_device_state-length, run_task-length}

-- The packets that wait to be decoded are at most as many as `max_packets_in_queue` allows.
abbrev pub IsBounded : App → Type 0
IsBounded a = length a.audio_decode_queue ≤ max_packets_in_queue

on_incoming_audio-IsBounded :
    (p : AudioStreamPacket) (a : App) → IsBounded a → IsBounded (on_incoming_audio p a)
unfolding on_incoming_audio
on_incoming_audio-IsBounded p a h = ground (arith, length-append a.audio_decode_queue (p ∷ []))

audio_loop_output-IsBounded : (a : App) → IsBounded a → IsBounded (audio_loop_output a)
unfolding audio_loop_output
audio_loop_output-IsBounded a h = ground arith

-- A result that is no crash, with no more packets waiting than before.
abbrev Shrinks : App → Option App → Type 0
Shrinks a none = Unit {0}
Shrinks a (some b) = decode_length b ≤ decode_length a

on_tts-Shrinks : (get : String → Item) (a : App) → Shrinks a (on_tts get a)
unfolding on_tts
on_tts-Shrinks get a = ground arith

on_alert-Shrinks : (s m e : Item) (a : App) → Shrinks a (on_alert s m e a)
unfolding on_alert reset_decoder
on_alert-Shrinks (value s) (value m) (value e) a = omega arith
on_alert-Shrinks absent m e a = omega arith
on_alert-Shrinks s absent e a = ground arith
on_alert-Shrinks s m absent a = ground arith
on_alert-Shrinks s m e a = ground arith

Shrinks-if :
    (a : App) (b : Bool) (x y : Option App)
    → Shrinks a x
    → Shrinks a y
    → Shrinks a (if b then x else y)
Shrinks-if a true x y hx hy = hx
Shrinks-if a false x y hx hy = hy

on_incoming_json-Shrinks :
    (type : String) (get : String → Item) (a : App) → Shrinks a (on_incoming_json type get a)
unfolding on_incoming_json
on_incoming_json-Shrinks type get a = Shrinks-if a (str_eq type "tts") _ _ (on_tts-Shrinks get a) (
    Shrinks-if a (str_eq type "stt") _ _ (ground arith) (
      Shrinks-if a (str_eq type "llm") _ _ (ground arith) (
        Shrinks-if a (str_eq type "system") _ _ (ground arith) (
          Shrinks-if a (str_eq type "alert") _ _
            (on_alert-Shrinks (get "status") (get "message") (get "emotion") a) (omega arith)))))

on_incoming_json-IsBounded :
    (type : String) (get : String → Item) (a b : App)
    → IsBounded a
    → on_incoming_json type get a ≡ some b
    → IsBounded b
on_incoming_json-IsBounded type get a b h e =
    let shrunk : Shrinks a (some b) = subst (Shrinks a) e (on_incoming_json-Shrinks type get a) in
    omega arith

toggle_chat_state-length :
    (o : Opus) (r : SendResult) (a : App)
    → decode_length (toggle_chat_state o r a) ≤ decode_length a
unfolding toggle_chat_state
toggle_chat_state-length o r a = ground (arith, set_device_state-length o r DeviceState.idle a)

background_job-length :
    (o : Opus) (js : List BackgroundJob) (a : App)
    → decode_length (background_job o js a) ≡ decode_length a
unfolding background_job
background_job-length o [] a = refl
background_job-length o (j ∷ js) a =
    ap length (run_job-Keeps o j (record a { background = js })).audio_decode_queue

main_task-length :
    (o : Opus) (w : Answers) (ts : List Task) (a : App)
    → decode_length (main_task o w ts a) ≤ decode_length a
unfolding main_task
main_task-length o w [] a = omega arith
main_task-length o w (t ∷ ts) a = run_task-length o w t (record a { main_tasks = ts })

step-IsBounded :
    (o : Opus) (e : Event) (a b : App) → IsBounded a → step o e a ≡ some b → IsBounded b
unfolding step schedule_background abort_speaking_later on_goodbye dismiss_alert
step-IsBounded o (incoming_audio packet) a b h q =
    ground (arith, on_incoming_audio-IsBounded packet a h)
step-IsBounded o (incoming_json type get) a b h q = on_incoming_json-IsBounded type get a b h q
step-IsBounded o audio_round a b h q = ground (arith, audio_loop_output-IsBounded a h)
step-IsBounded o (processor_output pcm) a b h q = ground arith
step-IsBounded o background_step a b h q = ground (arith, background_job-length o a.background a)
step-IsBounded o (main_step w) a b h q = ground (arith, main_task-length o w a.main_tasks a)
step-IsBounded o (toggle r) a b h q = ground (arith, toggle_chat_state-length o r a)
step-IsBounded o abort_key a b h q = ground arith
step-IsBounded o goodbye a b h q = ground arith
step-IsBounded o dismiss a b h q = ground arith
step-IsBounded o (clock_tick n) a b h q = ground arith

-- After any sequence of events at most ten packets wait to be decoded, whatever the server sends
-- and however long the decoder takes, if no more waited before.
pub run-IsBounded :
    (o : Opus) (es : List Event) (a b : App) → IsBounded a → run o es a ≡ some b → IsBounded b
unfolding run
run-IsBounded o [] a b h q = ground arith
run-IsBounded o (e ∷ es) a b h q = elim (Option-cases (step o e a)) [
  | inl stops ↦ cc (rw (stops, run) at q)
  | inr (c, goes) ↦ run-IsBounded o es c b (step-IsBounded o e a c h goes) (rw (goes, run) at q)
]
