-- ===== src/Application/Session/Coherent.antt =====
-- application.cc: the audio processor follows the device state through every event.
use Prim.Native.String.{String}
use text.Mathlib.Text.{◌==◌ as str_eq}
use xiaozhi_pc.Base.{
  ◌≡◌, refl, subst, Bool, true, false, inl, inr, Option, none, some, List, [], ◌∷◌, arith,
  if◌then◌else◌, Option-cases,
}
use xiaozhi_pc.Application.State.{Task, BackgroundJob, Opus, App, AudioStreamPacket}
use xiaozhi_pc.Application.Audio.{
  on_incoming_audio, audio_loop_output, reset_decoder, schedule_background, schedule,
}
use xiaozhi_pc.Application.Device.{alert, dismiss_alert}
use xiaozhi_pc.Application.Handlers.{
  Answers, Item, absent, value, abort_speaking_later, on_goodbye, on_incoming_json, on_tts,
  on_alert,
}
use xiaozhi_pc.Application.Bounds.{run_job-Keeps}
use xiaozhi_pc.Application.Session.{
  Event, incoming_audio, incoming_json, audio_round, processor_output, background_step, main_step,
  toggle, abort_key, goodbye, dismiss, clock_tick, background_job, main_task, step, run,
}
use xiaozhi_pc.Application.Coherent.{IsCoherent, IsNoFailure, Same, Same-IsCoherent}
use xiaozhi_pc.Application.Session.Tasks.{run_task-IsCoherent, toggle_chat_state-IsCoherent}

pub on_incoming_audio-Same : (p : AudioStreamPacket) (a : App) → Same a (on_incoming_audio p a)
unfolding on_incoming_audio
on_incoming_audio-Same p a = ground arith

pub audio_loop_output-Same : (a : App) → Same a (audio_loop_output a)
unfolding audio_loop_output
audio_loop_output-Same a = ground arith

pub background_job-Same :
    (o : Opus) (js : List BackgroundJob) (a : App) → Same a (background_job o js a)
unfolding background_job
background_job-Same o [] a = record { device_state = refl; running = refl; mode = refl }
background_job-Same o (j ∷ js) a =
    let k = run_job-Keeps o j (record a { background = js }) in
    record { device_state = k.device_state; running = k.processor_running; mode = k.listening_mode }

-- A result that is no crash, and the same to the predicate.
abbrev pub MaySame : App → Option App → Type 0
MaySame a none = Unit {0}
MaySame a (some b) = Same a b

MaySame-if :
    (a : App) (b : Bool) (x y : Option App)
    → MaySame a x
    → MaySame a y
    → MaySame a (if b then x else y)
MaySame-if a true x y hx hy = hx
MaySame-if a false x y hx hy = hy

on_tts-MaySame : (get : String → Item) (a : App) → MaySame a (on_tts get a)
unfolding on_tts
on_tts-MaySame get a = ground arith

on_alert-MaySame : (s m e : Item) (a : App) → MaySame a (on_alert s m e a)
unfolding on_alert alert reset_decoder
on_alert-MaySame (value s) (value m) (value e) a = ground arith
on_alert-MaySame absent m e a = ground arith
on_alert-MaySame s absent e a = ground arith
on_alert-MaySame s m absent a = ground arith
on_alert-MaySame s m e a = ground arith

pub on_incoming_json-MaySame :
    (type : String) (get : String → Item) (a : App) → MaySame a (on_incoming_json type get a)
unfolding on_incoming_json
on_incoming_json-MaySame type get a = MaySame-if a (str_eq type "tts") _ _ (on_tts-MaySame get a) (
    MaySame-if a (str_eq type "stt") _ _ (ground arith) (
      MaySame-if a (str_eq type "llm") _ _ (ground arith) (
        MaySame-if a (str_eq type "system") _ _ (ground arith) (
          MaySame-if a (str_eq type "alert") _ _
            (on_alert-MaySame (get "status") (get "message") (get "emotion") a) (ground arith)))))

main_task-IsCoherent :
    (o : Opus) (w : Answers) (ts : List Task) (a : App)
    → IsNoFailure w.sending
    → IsCoherent a
    → IsCoherent (main_task o w ts a)
unfolding main_task
main_task-IsCoherent o w [] a f h = h
main_task-IsCoherent o w (t ∷ ts) a f h =
    run_task-IsCoherent o w t (record a { main_tasks = ts }) f h

-- No text that the event sends fails to be sent.
abbrev pub NoFailure : Event → Type 0
NoFailure (main_step w) = IsNoFailure w.sending
NoFailure (toggle r) = IsNoFailure r
NoFailure _ = Unit {0}

abbrev pub NoFailures : List Event → Type 0
NoFailures [] = Unit {0}
NoFailures (e ∷ es) = NoFailure e × NoFailures es

abbrev MayCoherent : Option App → Type 0
MayCoherent none = Unit {0}
MayCoherent (some a) = IsCoherent a

MaySame-MayCoherent : (a : App) (x : Option App) → MaySame a x → IsCoherent a → MayCoherent x
MaySame-MayCoherent a none s h = tt
MaySame-MayCoherent a (some b) s h = Same-IsCoherent a b s h

step-MayCoherent :
    (o : Opus) (e : Event) (a : App) → NoFailure e → IsCoherent a → MayCoherent (step o e a)
unfolding step schedule_background abort_speaking_later on_goodbye dismiss_alert schedule
step-MayCoherent o (incoming_audio p) a f h = Same-IsCoherent a _ (on_incoming_audio-Same p a) h
step-MayCoherent o (incoming_json type get) a f h =
    MaySame-MayCoherent a (on_incoming_json type get a) (on_incoming_json-MaySame type get a) h
step-MayCoherent o audio_round a f h = Same-IsCoherent a _ (audio_loop_output-Same a) h
step-MayCoherent o (processor_output pcm) a f h = h
step-MayCoherent o background_step a f h =
    Same-IsCoherent a _ (background_job-Same o a.background a) h
step-MayCoherent o (main_step w) a f h = main_task-IsCoherent o w a.main_tasks a f h
step-MayCoherent o (toggle r) a f h = toggle_chat_state-IsCoherent o r a f h
step-MayCoherent o abort_key a f h = h
step-MayCoherent o goodbye a f h = h
step-MayCoherent o dismiss a f h = ground arith
step-MayCoherent o (clock_tick n) a f h = h

-- In every sequence of events in which no sending of a text reports an error, the audio processor
-- follows the device state, if it did before: stopped when idle or unknown, running when listening,
-- and when speaking running only in realtime mode.
pub run-IsCoherent :
    (o : Opus) (es : List Event) (a b : App)
    → NoFailures es
    → IsCoherent a
    → run o es a ≡ some b
    → IsCoherent b
unfolding run
run-IsCoherent o [] a b f h q = ground arith
run-IsCoherent o (e ∷ es) a b f h q = elim (Option-cases (step o e a)) [
  | inl stops ↦ cc (rw (stops, run) at q)
  | inr (c, goes) ↦
      run-IsCoherent o es c b f.1 (subst MayCoherent goes (step-MayCoherent o e a f.0 h))
        (rw (goes, run) at q)
]
