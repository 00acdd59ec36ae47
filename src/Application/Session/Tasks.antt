-- ===== src/Application/Session/Tasks.antt =====
-- application.cc: the audio processor follows the device state through every task.
use xiaozhi_pc.Base.{ℕ, ◌≡◌, refl, ◌∙◌, true, false, arith, if◌then◌else◌}
use xiaozhi_pc.Application.State.{
  DeviceState, ListeningMode, realtime, auto_stop, Task, channel_closed, tts_start, tts_stop,
  chat_message, emotion, send_audio, open_chat, abort, close_chat, Effect, send_abort_speaking,
  close_audio_channel, open_audio_channel, Opus, App, emit,
}
use xiaozhi_pc.Application.Audio.{schedule, set_decode_sample_rate, wait_for_completion}
use xiaozhi_pc.Application.Device.{SendResult, sent, not_sent, send_failed, send, set_device_state}
use xiaozhi_pc.Application.Handlers.{
  Answers, OpenResult, opened, not_opened, open_failed, run_task, run_open_chat, run_tts_start,
  run_tts_stop, abort_speaking, close_channel, toggle_chat_state, on_audio_channel_opened,
  on_audio_channel_closed, set_listening_mode,
}
use xiaozhi_pc.Application.Bounds.{Keeps, wait_for_completion-Keeps}
use xiaozhi_pc.Application.Transitions.{set_device_state_connecting}
use xiaozhi_pc.Application.Coherent.{
  IsCoherent, IsNoFailure, Same, Same-IsCoherent, on_network_error-IsCoherent,
  set_device_state-IsCoherent,
}

Keeps-Same : {a b : App} → Keeps a b → Same a b
Keeps-Same k = record {
  device_state = k.device_state;
  running = k.processor_running;
  mode = k.listening_mode;
}

set_listening_mode-IsCoherent :
    (o : Opus) (r : SendResult) (m : ListeningMode) (a : App)
    → IsNoFailure r
    → a.device_state ≡ DeviceState.connecting
    → IsCoherent (set_listening_mode o r m a)
unfolding set_listening_mode
set_listening_mode-IsCoherent o r m a f e =
    set_device_state-IsCoherent o r DeviceState.listening (record a { listening_mode = m }) f
      (simp e)

opened_state :
    (rate duration : ℕ) (a : App)
    → (on_audio_channel_opened rate duration a).device_state ≡ a.device_state
unfolding on_audio_channel_opened set_decode_sample_rate
opened_state rate duration a = ground arith

run_open_chat-IsCoherent :
    (o : Opus) (w : Answers) (a : App)
    → IsNoFailure w.sending
    → IsCoherent a
    → IsCoherent (run_open_chat o w a)
unfolding run_open_chat on_audio_channel_opened set_listening_mode
run_open_chat-IsCoherent o w a f h = by_answer w.opening refl
  where
    b : App
    b = emit open_audio_channel (set_device_state o w.sending DeviceState.connecting a)

    mode : ListeningMode
    mode = if b.realtime_chat_enabled then realtime else auto_stop

    before : IsCoherent b
    before = set_device_state-IsCoherent o w.sending DeviceState.connecting a f h

    by_answer : (x : OpenResult) → w.opening ≡ x → IsCoherent (run_open_chat o w a)
    by_answer (opened rate duration) e =
        rw (e, run_open_chat)
          (set_listening_mode-IsCoherent o w.sending mode (on_audio_channel_opened rate duration b)
            f (opened_state rate duration b ∙ set_device_state_connecting o w.sending a))
    by_answer not_opened e = rw (e, run_open_chat) before
    by_answer (open_failed m) e = rw (e, run_open_chat) (on_network_error-IsCoherent o m b before)

run_tts_start-IsCoherent :
    (o : Opus) (r : SendResult) (a : App)
    → IsNoFailure r
    → IsCoherent a
    → IsCoherent (run_tts_start o r a)
unfolding run_tts_start
run_tts_start-IsCoherent o r a f h =
    ground (
      arith,
      set_device_state-IsCoherent o r DeviceState.speaking (record a { aborted = false }) f h,
    )

run_tts_stop-IsCoherent :
    (o : Opus) (r : SendResult) (a : App)
    → IsNoFailure r
    → IsCoherent a
    → IsCoherent (run_tts_stop o r a)
unfolding run_tts_stop
run_tts_stop-IsCoherent o r a f h =
    let b = wait_for_completion o a in
    let c : IsCoherent b = Same-IsCoherent a b (Keeps-Same (wait_for_completion-Keeps o a)) h in
    ground (
      arith,
      set_device_state-IsCoherent o r DeviceState.idle b f c,
      set_device_state-IsCoherent o r DeviceState.listening b f c,
    )

send-IsCoherent :
    (o : Opus) (r : SendResult) (e : Effect) (a : App) → IsCoherent a → IsCoherent (send o r e a)
unfolding send
send-IsCoherent o sent e a h = h
send-IsCoherent o not_sent e a h = h
send-IsCoherent o (send_failed m) e a h = on_network_error-IsCoherent o m a h

pub run_task-IsCoherent :
    (o : Opus) (w : Answers) (t : Task) (a : App)
    → IsNoFailure w.sending
    → IsCoherent a
    → IsCoherent (run_task o w t a)
unfolding run_task abort_speaking close_channel on_audio_channel_closed schedule
run_task-IsCoherent o w channel_closed a f h =
    set_device_state-IsCoherent o w.sending DeviceState.idle _ f h
run_task-IsCoherent o w tts_start a f h = run_tts_start-IsCoherent o w.sending a f h
run_task-IsCoherent o w tts_stop a f h = run_tts_stop-IsCoherent o w.sending a f h
run_task-IsCoherent o w open_chat a f h = run_open_chat-IsCoherent o w a f h
run_task-IsCoherent o w abort a f h =
    send-IsCoherent o w.sending send_abort_speaking (record a { aborted = true }) h
run_task-IsCoherent o w close_chat a f h = send-IsCoherent o w.sending close_audio_channel a h
run_task-IsCoherent o w (chat_message role text) a f h = h
run_task-IsCoherent o w (emotion name) a f h = h
run_task-IsCoherent o w (send_audio packet) a f h = h

pub toggle_chat_state-IsCoherent :
    (o : Opus) (r : SendResult) (a : App)
    → IsNoFailure r
    → IsCoherent a
    → IsCoherent (toggle_chat_state o r a)
unfolding toggle_chat_state schedule
toggle_chat_state-IsCoherent o r a f h =
    ground (arith, set_device_state-IsCoherent o r DeviceState.idle a f h)
