-- ===== src/Application/Session/Stuck.antt =====
-- application.cc: what keeps a connecting application connecting.
use Prim.Native.String.{String}
use text.Mathlib.Text.{◌==◌ as str_eq}
use xiaozhi_pc.Base.{
  ◌≡◌, refl, sym, ◌∙◌, subst, Bool, true, false, ◌&&◌, Option, none, some, List, [], ◌∷◌, ◌++◌,
  arith, if◌then◌else◌,
}
use xiaozhi_pc.Application.State.{
  DeviceState, Task, tts_start, tts_stop, chat_message, emotion, send_audio, BackgroundJob, encode,
  decode, Opus, App,
}
use xiaozhi_pc.Application.Audio.{run_job, run_jobs, wait_for_completion, reset_decoder, schedule}
use xiaozhi_pc.Application.Device.{
  SendResult, DeviceState-discrete, change_state, enter, enter_connecting, set_device_state, alert,
}
use xiaozhi_pc.Application.Handlers.{
  Answers, Item, absent, value, no_text, run_task, run_tts_start, run_tts_stop, on_incoming_json,
  on_tts, on_alert,
}
use xiaozhi_pc.Application.Bounds.{wait_for_completion-Keeps}
use xiaozhi_pc.Application.Session.{Event, abort_key, goodbye, main_task}

-- A task that does nothing to a device that is connecting.
abbrev pub is_harmless : Task → Bool
is_harmless tts_start = true
is_harmless tts_stop = true
is_harmless (chat_message role text) = true
is_harmless (emotion name) = true
is_harmless (send_audio packet) = true
is_harmless _ = false

abbrev pub are_harmless : List Task → Bool
are_harmless [] = true
are_harmless (t ∷ ts) = is_harmless t && are_harmless ts

-- The keyboard does not abort, and no goodbye arrives.
abbrev pub is_without_abort : List Event → Bool
is_without_abort [] = true
is_without_abort (abort_key ∷ es) = false
is_without_abort (goodbye ∷ es) = false
is_without_abort (e ∷ es) = is_without_abort es

pub record IsStuck (a : App) : Type 0 where
  pub state : a.device_state ≡ DeviceState.connecting
  pub tasks : are_harmless a.main_tasks ≡ true

are_harmless-append :
    (ts : List Task) (t : Task) → are_harmless (ts ++ (t ∷ [])) ≡ (are_harmless ts && is_harmless t)
are_harmless-append [] t = ground arith
are_harmless-append (u ∷ ts) t = ground (arith, are_harmless-append ts t)

-- Harmless tasks are followed by harmless ones.
abbrev pub Follows : App → App → Type 0
Follows a b = are_harmless a.main_tasks ≡ true → are_harmless b.main_tasks ≡ true

schedule-Follows : (t : Task) (a : App) → is_harmless t ≡ true → Follows a (schedule t a)
unfolding schedule
schedule-Follows t a h k = ground (arith, are_harmless-append a.main_tasks t)

pub run_job-Follows : (o : Opus) (j : BackgroundJob) (a : App) → Follows a (run_job o j a)
unfolding run_job schedule
run_job-Follows o (encode pcm) a k = grind (arith, are_harmless-append)
run_job-Follows o (decode packet) a k = ground arith

run_jobs-Follows : (o : Opus) (js : List BackgroundJob) (a : App) → Follows a (run_jobs o js a)
unfolding run_jobs
run_jobs-Follows o [] a k = k
run_jobs-Follows o (j ∷ js) a k = run_jobs-Follows o js (run_job o j a) (run_job-Follows o j a k)

wait-Follows : (o : Opus) (a : App) → Follows a (wait_for_completion o a)
unfolding wait_for_completion
wait-Follows o a k = run_jobs-Follows o a.background (record a { background = [] }) k

pub connecting-Follows :
    (o : Opus) (r : SendResult) (a : App)
    → Follows a (set_device_state o r DeviceState.connecting a)
unfolding set_device_state enter enter_connecting change_state
connecting-Follows o r a k =
    elim (DeviceState-discrete a.device_state DeviceState.connecting)
      as (λ b.
        let c : App = elim b [
          | yes _ ↦ a
          | no _ ↦ enter o r DeviceState.connecting (change_state o DeviceState.connecting a)
        ] in
        are_harmless c.main_tasks ≡ true) [
          | yes _ ↦ k
          | no _ ↦ wait-Follows o (record a { device_state = DeviceState.connecting }) k
        ]

pub kept_by : (a b : App) → b.device_state ≡ a.device_state → Follows a b → IsStuck a → IsStuck b
kept_by a b e f s = record { state = e ∙ s.state; tasks = f s.tasks }

run_tts_start-IsStuck :
    (o : Opus) (r : SendResult) (a : App) → IsStuck a → IsStuck (run_tts_start o r a)
unfolding run_tts_start
run_tts_start-IsStuck o r a s =
    let e : run_tts_start o r a ≡ record a { aborted = false } = ground (arith, s.state) in
    subst IsStuck (sym e) (record { state = s.state; tasks = s.tasks })

run_tts_stop-IsStuck :
    (o : Opus) (r : SendResult) (a : App) → IsStuck a → IsStuck (run_tts_stop o r a)
unfolding run_tts_stop
run_tts_stop-IsStuck o r a s =
    let k = (wait_for_completion-Keeps o a).device_state in
    let e : run_tts_stop o r a ≡ wait_for_completion o a = ground (arith, k, s.state) in
    subst IsStuck (sym e) (kept_by a (wait_for_completion o a) k (wait-Follows o a) s)

run_task-IsStuck :
    (o : Opus) (w : Answers) (t : Task) (a : App)
    → is_harmless t ≡ true
    → IsStuck a
    → IsStuck (run_task o w t a)
unfolding run_task
run_task-IsStuck o w tts_start a h s = run_tts_start-IsStuck o w.sending a s
run_task-IsStuck o w tts_stop a h s = run_tts_stop-IsStuck o w.sending a s
run_task-IsStuck o w (chat_message role text) a h s = kept_by a _ refl (λ k. k) s
run_task-IsStuck o w (emotion name) a h s = kept_by a _ refl (λ k. k) s
run_task-IsStuck o w (send_audio packet) a h s = kept_by a _ refl (λ k. k) s
run_task-IsStuck o w _ a h s = cc

pub main_task-IsStuck :
    (o : Opus) (w : Answers) (ts : List Task) (a : App)
    → are_harmless ts ≡ true
    → IsStuck a
    → IsStuck (main_task o w ts a)
unfolding main_task
main_task-IsStuck o w [] a h s = s
main_task-IsStuck o w (t ∷ ts) a h s =
    run_task-IsStuck o w t (record a { main_tasks = ts }) (ground arith)
      (record { state = s.state; tasks = ground arith })

-- A result that is no crash is stuck.
abbrev pub MayStuck : Option App → Type 0
MayStuck none = Unit {0}
MayStuck (some a) = IsStuck a

scheduled : (t : Task) (a : App) → is_harmless t ≡ true → IsStuck a → IsStuck (schedule t a)
unfolding schedule
scheduled t a h s = kept_by a (schedule t a) refl (schedule-Follows t a h) s

MayStuck-if :
    (b : Bool) (x y : Option App) → MayStuck x → MayStuck y → MayStuck (if b then x else y)
MayStuck-if true x y hx hy = hx
MayStuck-if false x y hx hy = hy

-- A member that is a text, and what is scheduled for it.
text_MayStuck :
    (i : Item) (f : String → Task) (a : App)
    → ((s : String) → is_harmless (f s) ≡ true)
    → IsStuck a
    → MayStuck (elim i as (λ _. Option App) [
      | absent ↦ some a
      | value s ↦ some (schedule (f s) a)
      | no_text ↦ none
    ])
text_MayStuck absent f a h s = s
text_MayStuck (value x) f a h s = scheduled (f x) a (h x) s
text_MayStuck _ f a h s = tt

on_tts-MayStuck : (get : String → Item) (a : App) → IsStuck a → MayStuck (on_tts get a)
unfolding on_tts
on_tts-MayStuck get a s = by_item (get "state")
  where
    by_item :
        (i : Item)
        → MayStuck (elim i as (λ _. Option App) [
          | value state ↦
              if str_eq state "start"
              then some (schedule tts_start a)
              else if str_eq state "stop"
              then some (schedule tts_stop a)
              else if str_eq state "sentence_start"
              then elim (get "text") [
                | absent ↦ some a
                | value message ↦ some (schedule (chat_message "assistant" message) a)
                | no_text ↦ none
              ]
              else some a
          | _ ↦ none
        ])
    by_item (value state) = MayStuck-if (str_eq state "start") _ _ (scheduled tts_start a refl s) (
        MayStuck-if (str_eq state "stop") _ _ (scheduled tts_stop a refl s) (
          MayStuck-if (str_eq state "sentence_start") _ _
            (text_MayStuck (get "text") (chat_message "assistant") a (λ x. refl) s) s))
    by_item _ = tt

on_alert-MayStuck : (s m e : Item) (a : App) → IsStuck a → MayStuck (on_alert s m e a)
unfolding on_alert alert reset_decoder
on_alert-MayStuck (value s) (value m) (value e) a h = kept_by a _ refl (λ k. k) h
on_alert-MayStuck absent m e a h = h
on_alert-MayStuck s absent e a h = ground (arith, h)
on_alert-MayStuck s m absent a h = ground (arith, h)
on_alert-MayStuck s m e a h = ground (arith, h)

pub on_incoming_json-MayStuck :
    (type : String) (get : String → Item) (a : App)
    → IsStuck a
    → MayStuck (on_incoming_json type get a)
unfolding on_incoming_json
on_incoming_json-MayStuck type get a s =
    MayStuck-if (str_eq type "tts") _ _ (on_tts-MayStuck get a s) (
      MayStuck-if (str_eq type "stt") _ _
        (text_MayStuck (get "text") (chat_message "user") a (λ x. refl) s)
        (MayStuck-if (str_eq type "llm") _ _ (text_MayStuck (get "emotion") emotion a (λ x. refl) s)
          (MayStuck-if (str_eq type "system") _ _ (ground (arith, s)) (
            MayStuck-if (str_eq type "alert") _ _
              (on_alert-MayStuck (get "status") (get "message") (get "emotion") a s) s))))
