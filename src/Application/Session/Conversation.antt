-- ===== src/Application/Session/Conversation.antt =====
-- application.cc: a turn of a conversation, as the steps of the threads make it.
use Prim.Native.String.{String}
use text.Mathlib.Text.{◌==◌}
use xiaozhi_pc.Base.{
  ℕ, ◌≡◌, refl, ap, zero, suc, ◌∙◌, Option, none, some, List, [], ◌∷◌, arith, if◌then◌else◌,
}
use xiaozhi_pc.Application.State.{DeviceState, Task, tts_start, tts_stop, open_chat, Opus, App}
use xiaozhi_pc.Application.Audio.{schedule}
use xiaozhi_pc.Application.Device.{sent}
use xiaozhi_pc.Application.Handlers.{
  Answers, opened, value, absent, run_task, toggle_chat_state, on_incoming_json, on_tts,
}
use xiaozhi_pc.Application.Session.{Event, toggle, main_step, incoming_json, main_task, step, run}
use xiaozhi_pc.Application.Session.Quiet.{IsQuiet}
use xiaozhi_pc.Application.Session.Turns.{
  IsTurn, run_tts_start-IsTurn, run_tts_stop-IsTurn, run_open_chat-IsTurn,
}

-- A message of type `tts` with this state.
abbrev pub tts_message : String → Event
tts_message state = incoming_json "tts" (λ key. if key == "state" then value state else absent)

abbrev pub loop_step : ℕ → ℕ → Event
loop_step rate duration = main_step (record { opening = opened rate duration; sending = sent })

-- The server speaks, this many times; the main loop runs each task before the next message.
unfoldable pub turns : ℕ → ℕ → ℕ → List Event
turns rate duration zero = []
turns rate duration (suc n) =
    tts_message "start"
    ∷ loop_step rate duration
    ∷ tts_message "stop"
    ∷ loop_step rate duration
    ∷ turns rate duration n

-- The events run to the end, and leave a turn in this state.
pub Ends : Opus → List Event → DeviceState → App → Type 0
Ends o es d a = (b : App) × (run o es a ≡ some b) × IsTurn d b

run_step :
    (o : Opus) (e : Event) (es : List Event) (a b : App)
    → step o e a ≡ some b
    → run o (e ∷ es) a ≡ run o es b
unfolding run
run_step o e es a b s =
    ap (λ x. elim x as (λ _. Option App) [ none ↦ none | some c ↦ run o es c ]) s

-- A task that is scheduled and then run by the main loop, on an application without tasks.
task_run :
    (o : Opus) (e : Event) (w : Answers) (t : Task) (es : List Event) (d : DeviceState) (a : App)
    → a.main_tasks ≡ []
    → step o e a ≡ some (schedule t a)
    → Ends o es d (run_task o w t (record a { main_tasks = [] }))
    → Ends o (e ∷ main_step w ∷ es) d a
unfolding Ends run step schedule main_task
task_run o e w t es d a n s (b, r, i) = (b, by_step ∙ r, i)
  where
    by_main :
        step o (main_step w) (schedule t a) ≡ some (run_task o w t (record a { main_tasks = [] }))
    by_main = rw (n) refl

    by_step :
        run o (e ∷ main_step w ∷ es) a ≡ run o es (run_task o w t (record a { main_tasks = [] }))
    by_step =
        run_step o e (main_step w ∷ es) a _ s ∙ run_step o (main_step w) es (schedule t a) _ by_main

toggle_idle :
    (o : Opus) (a : App)
    → IsQuiet a
    → a.device_state ≡ DeviceState.idle
    → step o (toggle sent) a ≡ some (schedule open_chat a)
unfolding step toggle_chat_state
toggle_idle o a q e = ground (arith, e, q.protocol)

cleared : (a : App) → IsQuiet a → IsQuiet (record a { main_tasks = [] })
cleared a q = record { no_tasks = refl; no_jobs = q.no_jobs; protocol = q.protocol }

cleared-IsTurn : (d : DeviceState) (a : App) → IsTurn d a → IsTurn d (record a { main_tasks = [] })
cleared-IsTurn d a t = record {
  quiet = cleared a t.quiet;
  state = t.state;
  not_manual = t.not_manual;
}

speaks :
    (o : Opus) (rate duration : ℕ) (es : List Event) (d : DeviceState) (a : App)
    → IsTurn DeviceState.listening a
    → ((b : App) → IsTurn DeviceState.speaking b → Ends o es d b)
    → Ends o (tts_message "start" ∷ loop_step rate duration ∷ es) d a
unfolding step on_incoming_json on_tts run_task
speaks o rate duration es d a t k =
    task_run o (tts_message "start") _ tts_start es d a t.quiet.no_tasks refl
      (k _ (run_tts_start-IsTurn o _ (cleared-IsTurn DeviceState.listening a t)))

falls_silent :
    (o : Opus) (rate duration : ℕ) (es : List Event) (d : DeviceState) (a : App)
    → IsTurn DeviceState.speaking a
    → ((b : App) → IsTurn DeviceState.listening b → Ends o es d b)
    → Ends o (tts_message "stop" ∷ loop_step rate duration ∷ es) d a
unfolding step on_incoming_json on_tts run_task
falls_silent o rate duration es d a t k =
    task_run o (tts_message "stop") _ tts_stop es d a t.quiet.no_tasks refl
      (k _ (run_tts_stop-IsTurn o _ (cleared-IsTurn DeviceState.speaking a t)))

turns-Ends :
    (o : Opus) (rate duration n : ℕ) (a : App)
    → IsTurn DeviceState.listening a
    → Ends o (turns rate duration n) DeviceState.listening a
unfolding turns Ends run
turns-Ends o rate duration zero a t = (a, refl, t)
turns-Ends o rate duration (suc n) a t =
    speaks o rate duration (tts_message "stop" ∷ loop_step rate duration ∷ turns rate duration n)
      DeviceState.listening a t
      (λ b s.
        falls_silent o rate duration _ DeviceState.listening b s
          (λ c l. turns-Ends o rate duration n c l))

-- From a quiet idle application with a protocol that opens the channel and sends what it is given, the key opens the chat, the main
-- loop leads it to listening, and after any number of answers of the server, each a start and a stop, it listens again, with no task left.
pub conversation :
    (o : Opus) (rate duration n : ℕ) (a : App)
    → IsQuiet a
    → a.device_state ≡ DeviceState.idle
    → Ends o (toggle sent ∷ loop_step rate duration ∷ turns rate duration n) DeviceState.listening a
unfolding run_task
conversation o rate duration n a q e =
    task_run o (toggle sent) _ open_chat _ DeviceState.listening a q.no_tasks (toggle_idle o a q e)
      (turns-Ends o rate duration n _ (run_open_chat-IsTurn o rate duration _ (cleared a q)))
