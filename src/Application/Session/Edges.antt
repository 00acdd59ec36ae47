-- ===== src/Application/Session/Edges.antt =====
-- application.cc: which states of the device follow which.
use Prim.Native.String.{String}
use xiaozhi_pc.Base.{
  ◌≡◌, refl, ap, sym, ◌∙◌, subst, ◌⊎◌, inl, inr, ◌||◌, true, false, Option, some, List, [], ◌∷◌,
  arith, if_cases, if◌then◌else◌,
}
use xiaozhi_pc.Application.State.{
  DeviceState, ListeningMode, realtime, auto_stop, Task, channel_closed, tts_start, tts_stop,
  chat_message, emotion, send_audio, open_chat, abort, close_chat, Effect, send_abort_speaking,
  close_audio_channel, open_audio_channel, Opus, App, emit,
}
use xiaozhi_pc.Application.Audio.{is_idle, is_listening, wait_for_completion}
use xiaozhi_pc.Application.Device.{
  SendResult, sent, not_sent, send_failed, send, on_network_error, set_device_state,
  DeviceState-discrete,
}
use xiaozhi_pc.Application.Handlers.{
  is_speaking, is_manual_stop, Answers, OpenResult, opened, not_opened, open_failed, run_task,
  run_open_chat, run_tts_start, run_tts_stop, abort_speaking, close_channel,
  on_audio_channel_opened, on_audio_channel_closed, set_listening_mode, toggle_chat_state,
}
use mathlib.Core.Option
use xiaozhi_pc.Base.{Bool-cases}
use xiaozhi_pc.Application.State.{set_chat_message}
use xiaozhi_pc.Application.Audio.{schedule_background, schedule}
use xiaozhi_pc.Application.Handlers.{is_activating, abort_speaking_later, on_goodbye}
use xiaozhi_pc.Application.Device.{dismiss_alert}
use xiaozhi_pc.Application.Coherent.{Same}
use xiaozhi_pc.Application.Session.{
  Event, incoming_audio, incoming_json, audio_round, processor_output, background_step, main_step,
  toggle, abort_key, goodbye, dismiss, clock_tick, main_task, step,
}
use xiaozhi_pc.Application.Session.Coherent.{
  on_incoming_audio-Same, audio_loop_output-Same, background_job-Same, MaySame,
  on_incoming_json-MaySame,
}
use xiaozhi_pc.Application.Bounds.{wait_for_completion-Keeps}
use xiaozhi_pc.Application.Transitions.{
  Status, status, target, set_device_state-status, on_network_error-status,
  set_device_state_connecting,
}

-- The states that may follow a state in one step of a thread.
pub data Edge (d : DeviceState) : DeviceState → Type 0 where
  stays : Edge d d
  to_idle : Edge d DeviceState.idle
  to_connecting : Edge d DeviceState.connecting
  to_listening : Edge d DeviceState.listening
  to_speaking : (is_idle d || is_listening d) ≡ true → Edge d DeviceState.speaking

-- Where `SetDeviceState` ends: in the state that was asked for, or in idle.
Lands : DeviceState → DeviceState → Type 0
Lands d x = (x ≡ d) ⊎ (x ≡ DeviceState.idle)

target-Lands :
    (r : SendResult) (d : DeviceState) (m : ListeningMode) (s : Status)
    → Lands d (target r d m s).device_state
unfolding Lands
target-Lands r DeviceState.unknown m s = inl refl
target-Lands sent DeviceState.listening m s = inl refl
target-Lands not_sent DeviceState.listening m s = inl refl
target-Lands (send_failed e) DeviceState.listening m s = ground arith
target-Lands r _ m s = inl refl

set_device_state-Lands :
    (o : Opus) (r : SendResult) (d : DeviceState) (a : App)
    → Lands d (set_device_state o r d a).device_state
unfolding Lands
set_device_state-Lands o r d a = elim (DeviceState-discrete a.device_state d) [
  | yes e ↦ inl (ap (λ (b : App). b.device_state) ((set_device_state-status o r d a).1 e) ∙ e)
  | no ne ↦
      subst (Lands d)
        (sym (ap (λ (s : Status). s.device_state) ((set_device_state-status o r d a).0 ne)))
        (target-Lands r d a.listening_mode (status a))
]

Edge-Lands : (c d x : DeviceState) → Edge c d → Lands d x → Edge c x
unfolding Lands
Edge-Lands c d x e (inl p) = subst (Edge c) (sym p) e
Edge-Lands c d x e (inr p) = subst (Edge c) (sym p) to_idle

on_network_error-Edge :
    (o : Opus) (m : String) (c : DeviceState) (a : App)
    → Edge c (on_network_error o m a).device_state
on_network_error-Edge o m c a =
    subst (Edge c) (sym (ap (λ (s : Status). s.device_state) (on_network_error-status o m a)))
      to_idle

send-Edge :
    (o : Opus) (r : SendResult) (e : Effect) (a : App)
    → Edge a.device_state (send o r e a).device_state
unfolding send
send-Edge o sent e a = stays
send-Edge o not_sent e a = stays
send-Edge o (send_failed m) e a = on_network_error-Edge o m a.device_state a

run_open_chat-Edge :
    (o : Opus) (w : Answers) (a : App) → Edge a.device_state (run_open_chat o w a).device_state
unfolding run_open_chat set_listening_mode
run_open_chat-Edge o w a = by_answer w.opening refl
  where
    b : App
    b = emit open_audio_channel (set_device_state o w.sending DeviceState.connecting a)

    mode : ListeningMode
    mode = if b.realtime_chat_enabled then realtime else auto_stop

    by_answer :
        (x : OpenResult) → w.opening ≡ x → Edge a.device_state (run_open_chat o w a).device_state
    by_answer (opened rate duration) e =
        rw (e, run_open_chat)
          (Edge-Lands a.device_state DeviceState.listening _ to_listening (
            set_device_state-Lands o w.sending DeviceState.listening
              (record (on_audio_channel_opened rate duration b) { listening_mode = mode })))
    by_answer not_opened e =
        rw (e, run_open_chat)
          (subst (Edge a.device_state) (sym (set_device_state_connecting o w.sending a))
            to_connecting)
    by_answer (open_failed m) e = rw (e, run_open_chat) (on_network_error-Edge o m a.device_state b)

run_tts_start-Edge :
    (o : Opus) (r : SendResult) (a : App) → Edge a.device_state (run_tts_start o r a).device_state
unfolding run_tts_start
run_tts_start-Edge o r a =
    let a' : App = record a { aborted = false } in
    if_cases (λ (b : App). Edge a.device_state b.device_state)
      (is_idle a.device_state || is_listening a.device_state)
      (set_device_state o r DeviceState.speaking a') a'
      (λ t.
        Edge-Lands a.device_state DeviceState.speaking _ (to_speaking t)
          (set_device_state-Lands o r DeviceState.speaking a'))
      (λ t. stays)

run_tts_stop-Edge :
    (o : Opus) (r : SendResult) (a : App) → Edge a.device_state (run_tts_stop o r a).device_state
unfolding run_tts_stop
run_tts_stop-Edge o r a =
    let b = wait_for_completion o a in
    if_cases (λ (x : App). Edge a.device_state x.device_state) (is_speaking b.device_state)
      (if is_manual_stop b.listening_mode
        then set_device_state o r DeviceState.idle b
        else set_device_state o r DeviceState.listening b)
      b
      (λ t.
        if_cases (λ (x : App). Edge a.device_state x.device_state) (is_manual_stop b.listening_mode)
          (set_device_state o r DeviceState.idle b) (set_device_state o r DeviceState.listening b)
          (λ u.
            Edge-Lands a.device_state DeviceState.idle _ to_idle
              (set_device_state-Lands o r DeviceState.idle b))
          (λ u.
            Edge-Lands a.device_state DeviceState.listening _ to_listening
              (set_device_state-Lands o r DeviceState.listening b)))
      (λ t. subst (Edge a.device_state) (sym (wait_for_completion-Keeps o a).device_state) stays)

run_task-Edge :
    (o : Opus) (w : Answers) (t : Task) (a : App)
    → Edge a.device_state (run_task o w t a).device_state
unfolding run_task abort_speaking close_channel on_audio_channel_closed schedule
run_task-Edge o w channel_closed a =
    Edge-Lands a.device_state DeviceState.idle _ to_idle
      (set_device_state-Lands o w.sending DeviceState.idle (emit (set_chat_message "system" "") a))
run_task-Edge o w tts_start a = run_tts_start-Edge o w.sending a
run_task-Edge o w tts_stop a = run_tts_stop-Edge o w.sending a
run_task-Edge o w open_chat a = run_open_chat-Edge o w a
run_task-Edge o w abort a = send-Edge o w.sending send_abort_speaking (record a { aborted = true })
run_task-Edge o w close_chat a = send-Edge o w.sending close_audio_channel a
run_task-Edge o w (chat_message role text) a = stays
run_task-Edge o w (emotion name) a = stays
run_task-Edge o w (send_audio packet) a = stays

toggle_chat_state-Edge :
    (o : Opus) (r : SendResult) (a : App)
    → Edge a.device_state (toggle_chat_state o r a).device_state
unfolding toggle_chat_state schedule
toggle_chat_state-Edge o r a = elim (Bool-cases (is_activating a.device_state)) [
  | inl t ↦
      let e : toggle_chat_state o r a ≡ set_device_state o r DeviceState.idle a = ground arith in
      subst (λ (b : App). Edge a.device_state b.device_state) (sym e)
        (Edge-Lands a.device_state DeviceState.idle _ to_idle
          (set_device_state-Lands o r DeviceState.idle a))
  | inr t ↦
      let e : (toggle_chat_state o r a).device_state ≡ a.device_state = ground arith in
      subst (Edge a.device_state) (sym e) stays
]

main_task-Edge :
    (o : Opus) (w : Answers) (ts : List Task) (a : App)
    → Edge a.device_state (main_task o w ts a).device_state
unfolding main_task
main_task-Edge o w [] a = stays
main_task-Edge o w (t ∷ ts) a = run_task-Edge o w t (record a { main_tasks = ts })

Same-Edge : (a b : App) → Same a b → Edge a.device_state b.device_state
Same-Edge a b s = subst (Edge a.device_state) (sym s.device_state) stays

dismiss_alert-Same : (a : App) → Same a (dismiss_alert a)
unfolding dismiss_alert
dismiss_alert-Same a = ground arith

MaySame-Edge :
    (a b : App) (x : Option App) → MaySame a x → x ≡ some b → Edge a.device_state b.device_state
MaySame-Edge a b x s e = Same-Edge a b (subst (MaySame a) e s)

-- The state of the device after a step, for an application that is there.
from_some :
    (a b c : App)
    → Edge a.device_state c.device_state
    → some c ≡ some b
    → Edge a.device_state b.device_state
from_some a b c h e =
    subst (λ (x : App). Edge a.device_state x.device_state) (Option.some-injective c b e) h

-- In one step of any thread the state of the device stays, or goes to idle, connecting or listening, or it goes to speaking, and
-- does so only from idle and from listening: the states before idle never come back, and the ones that the program does not use are never entered.
pub step-Edge :
    (o : Opus) (e : Event) (a b : App) → step o e a ≡ some b → Edge a.device_state b.device_state
unfolding step schedule_background abort_speaking_later on_goodbye dismiss_alert schedule
step-Edge o (incoming_audio p) a b q =
    from_some a b _ (Same-Edge a _ (on_incoming_audio-Same p a)) q
step-Edge o (incoming_json type get) a b q =
    MaySame-Edge a b _ (on_incoming_json-MaySame type get a) q
step-Edge o audio_round a b q = from_some a b _ (Same-Edge a _ (audio_loop_output-Same a)) q
step-Edge o (processor_output pcm) a b q = from_some a b _ stays q
step-Edge o background_step a b q =
    from_some a b _ (Same-Edge a _ (background_job-Same o a.background a)) q
step-Edge o (main_step w) a b q = from_some a b _ (main_task-Edge o w a.main_tasks a) q
step-Edge o (toggle r) a b q = from_some a b _ (toggle_chat_state-Edge o r a) q
step-Edge o abort_key a b q = from_some a b _ stays q
step-Edge o goodbye a b q = from_some a b _ stays q
step-Edge o dismiss a b q =
    from_some a b (dismiss_alert a) (Same-Edge a (dismiss_alert a) (dismiss_alert-Same a)) q
step-Edge o (clock_tick n) a b q = from_some a b _ stays q
