-- ===== src/Application/Session/Lengths.antt =====
-- application.cc: no task of the main loop adds a packet to the decode queue.
use Prim.Native.String.{String}
use xiaozhi_pc.Base.{ℕ, ◌≤◌, ◌≡◌, refl, ap, true, false, arith, if◌then◌else◌, length}
use xiaozhi_pc.Application.State.{
  DeviceState, ListeningMode, realtime, auto_stop, Task, channel_closed, tts_start, tts_stop,
  chat_message, emotion, send_audio, open_chat, abort, close_chat, Effect, set_emotion, set_status,
  send_start_listening, send_abort_speaking, close_audio_channel, open_audio_channel,
  set_power_save_mode, Opus, App, emit,
}
use xiaozhi_pc.Application.Audio.{
  wait_for_completion, reset_decoder, schedule, set_decode_sample_rate,
}
use xiaozhi_pc.Application.Device.{
  SendResult, sent, not_sent, send_failed, change_state, alert, on_network_error, send,
  enter_listening, enter, set_device_state, enter_idle, enter_connecting, enter_speaking,
}
use xiaozhi_pc.Application.Handlers.{
  Answers, OpenResult, opened, not_opened, open_failed, run_task, run_open_chat, run_tts_start,
  run_tts_stop, abort_speaking, close_channel, on_audio_channel_opened, on_audio_channel_closed,
  set_listening_mode,
}
use xiaozhi_pc.Application.Bounds.{wait_for_completion-Keeps, change_state-Keeps}

abbrev pub decode_length : App → ℕ
decode_length a = length a.audio_decode_queue

change_state-length :
    (o : Opus) (d : DeviceState) (a : App) → decode_length (change_state o d a) ≡ decode_length a
change_state-length o d a = ap length (change_state-Keeps o d a).audio_decode_queue

on_network_error-length :
    (o : Opus) (m : String) (a : App) → decode_length (on_network_error o m a) ≡ 0
unfolding on_network_error alert reset_decoder
on_network_error-length o m a = refl

send-length :
    (o : Opus) (r : SendResult) (e : Effect) (a : App)
    → decode_length (send o r e a) ≤ decode_length a
unfolding send
send-length o sent e a = omega arith
send-length o not_sent e a = omega arith
send-length o (send_failed m) e a = omega (arith, on_network_error-length o m a)

enter-length :
    (o : Opus) (r : SendResult) (d : DeviceState) (a : App)
    → decode_length (enter o r d a) ≤ decode_length a
unfolding enter enter_idle enter_connecting enter_speaking enter_listening reset_decoder
enter-length o r DeviceState.unknown a = omega arith
enter-length o r DeviceState.idle a = omega arith
enter-length o r DeviceState.connecting a = omega arith
enter-length o r DeviceState.listening a =
    let a' = emit (set_emotion "neutral") (emit (set_status "LISTENING") a) in
    ground (arith, send-length o r (send_start_listening a'.listening_mode) a')
enter-length o r DeviceState.speaking a = omega arith
enter-length o r _ a = omega arith

pub set_device_state-length :
    (o : Opus) (r : SendResult) (d : DeviceState) (a : App)
    → decode_length (set_device_state o r d a) ≤ decode_length a
unfolding set_device_state
set_device_state-length o r d a =
    ground (arith, change_state-length o d a, enter-length o r d (change_state o d a))

set_decode_sample_rate-length :
    (rate duration : ℕ) (a : App)
    → decode_length (set_decode_sample_rate rate duration a) ≡ decode_length a
unfolding set_decode_sample_rate
set_decode_sample_rate-length rate duration a = ground arith

set_listening_mode-length :
    (o : Opus) (r : SendResult) (m : ListeningMode) (a : App)
    → decode_length (set_listening_mode o r m a) ≤ decode_length a
unfolding set_listening_mode
set_listening_mode-length o r m a =
    set_device_state-length o r DeviceState.listening (record a { listening_mode = m })

run_open_chat-length :
    (o : Opus) (w : Answers) (a : App) → decode_length (run_open_chat o w a) ≤ decode_length a
unfolding run_open_chat on_audio_channel_opened
run_open_chat-length o w a = by_answer w.opening refl
  where
    b : App
    b = emit open_audio_channel (set_device_state o w.sending DeviceState.connecting a)

    mode : ListeningMode
    mode = if b.realtime_chat_enabled then realtime else auto_stop

    shrunk : decode_length b ≤ decode_length a
    shrunk = set_device_state-length o w.sending DeviceState.connecting a

    by_answer :
        (x : OpenResult) → w.opening ≡ x → decode_length (run_open_chat o w a) ≤ decode_length a
    by_answer (opened rate duration) e =
        rw (e, run_open_chat)
          (omega (
            arith,
            shrunk,
            set_listening_mode-length o w.sending mode (on_audio_channel_opened rate duration b),
            set_decode_sample_rate-length rate duration (emit (set_power_save_mode false) b),
          ))
    by_answer not_opened e = rw (e, run_open_chat) shrunk
    by_answer (open_failed m) e =
        rw (e, run_open_chat) (omega (arith, on_network_error-length o m b))

run_tts_start-length :
    (o : Opus) (r : SendResult) (a : App) → decode_length (run_tts_start o r a) ≤ decode_length a
unfolding run_tts_start
run_tts_start-length o r a =
    ground (arith, set_device_state-length o r DeviceState.speaking (record a { aborted = false }))

run_tts_stop-length :
    (o : Opus) (r : SendResult) (a : App) → decode_length (run_tts_stop o r a) ≤ decode_length a
unfolding run_tts_stop
run_tts_stop-length o r a =
    let b = wait_for_completion o a in
    ground (
      arith,
      ap length (wait_for_completion-Keeps o a).audio_decode_queue,
      set_device_state-length o r DeviceState.idle b,
      set_device_state-length o r DeviceState.listening b,
    )

pub run_task-length :
    (o : Opus) (w : Answers) (t : Task) (a : App)
    → decode_length (run_task o w t a) ≤ decode_length a
unfolding run_task abort_speaking close_channel on_audio_channel_closed schedule
run_task-length o w channel_closed a = set_device_state-length o w.sending DeviceState.idle _
run_task-length o w tts_start a = run_tts_start-length o w.sending a
run_task-length o w tts_stop a = run_tts_stop-length o w.sending a
run_task-length o w open_chat a = run_open_chat-length o w a
run_task-length o w abort a =
    send-length o w.sending send_abort_speaking (record a { aborted = true })
run_task-length o w close_chat a = send-length o w.sending close_audio_channel a
run_task-length o w (chat_message role text) a = omega arith
run_task-length o w (emotion name) a = omega arith
run_task-length o w (send_audio packet) a = omega arith
