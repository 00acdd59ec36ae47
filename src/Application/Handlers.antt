-- ===== src/Application/Handlers.antt =====
-- application.cc: the lambdas that the main loop runs, the callbacks of the protocol, and the
-- methods that the keyboard calls.
use Prim.Native.String.{String}
use text.Mathlib.Text.{◌==◌}
use xiaozhi_pc.Base.{Bool, true, false, ◌||◌, ℕ, Option, none, some, if◌then◌else◌}
use xiaozhi_pc.Application.State.{
  DeviceState, ListeningMode, auto_stop, manual_stop, realtime, Task, channel_closed, tts_start,
  tts_stop, chat_message, emotion, send_audio, open_chat, abort, close_chat, set_emotion,
  set_chat_message, set_power_save_mode, send_abort_speaking, send_packet, open_audio_channel,
  close_audio_channel, Opus, App, emit,
}
use xiaozhi_pc.Application.Audio.{
  schedule, wait_for_completion, set_decode_sample_rate, is_idle, is_listening,
}
use xiaozhi_pc.Application.Device.{SendResult, send, set_device_state, on_network_error, alert}

abbrev pub is_speaking : DeviceState → Bool
is_speaking DeviceState.speaking = true
is_speaking _ = false

abbrev pub is_activating : DeviceState → Bool
is_activating DeviceState.activating = true
is_activating _ = false

abbrev pub is_manual_stop : ListeningMode → Bool
is_manual_stop manual_stop = true
is_manual_stop _ = false

-- What `OpenAudioChannel` of the protocol does: it opens, with the server's sample rate and frame
-- duration; it returns false quietly; or it reports an error and returns false.
pub data OpenResult : Type 0 where
  opened : ℕ → ℕ → OpenResult
  not_opened : OpenResult
  open_failed : String → OpenResult

-- What the protocol answers while one task runs.
pub record Answers : Type 0 where
  pub opening : OpenResult
  pub sending : SendResult

-- The callbacks given to `OnAudioChannelOpened` and `OnAudioChannelClosed`.
unfoldable pub on_audio_channel_opened : ℕ → ℕ → App → App
unfolding set_decode_sample_rate
on_audio_channel_opened rate duration a =
    set_decode_sample_rate rate duration (emit (set_power_save_mode false) a)

unfoldable pub on_audio_channel_closed : App → App
unfolding schedule
on_audio_channel_closed a = schedule channel_closed (emit (set_power_save_mode true) a)

unfoldable pub set_listening_mode : Opus → SendResult → ListeningMode → App → App
unfolding set_device_state
set_listening_mode o r mode a =
    set_device_state o r DeviceState.listening (record a { listening_mode = mode })

-- The task of `ToggleChatState` in the idle state.
unfoldable pub run_open_chat : Opus → Answers → App → App
unfolding set_device_state on_audio_channel_opened set_listening_mode on_network_error
run_open_chat o w a =
    let a' = emit open_audio_channel (set_device_state o w.sending DeviceState.connecting a) in
    elim w.opening [
      | opened rate duration ↦
          set_listening_mode o w.sending (if a'.realtime_chat_enabled then realtime else auto_stop)
            (on_audio_channel_opened rate duration a')
      | not_opened ↦ a'
      | open_failed message ↦ on_network_error o message a'
    ]

-- `AbortSpeaking(reason)`
unfoldable pub abort_speaking : Opus → SendResult → App → App
unfolding send
abort_speaking o r a = send o r send_abort_speaking (record a { aborted = true })

-- `CloseAudioChannel` of the protocol as the application sees it: the goodbye is sent or fails,
-- and the callback comes in any case.
unfoldable pub close_channel : Opus → SendResult → App → App
unfolding send on_audio_channel_closed
close_channel o r a = on_audio_channel_closed (send o r close_audio_channel a)

unfoldable pub run_tts_start : Opus → SendResult → App → App
unfolding set_device_state
run_tts_start o r a =
    let a' = record a { aborted = false } in
    if is_idle a'.device_state || is_listening a'.device_state
    then set_device_state o r DeviceState.speaking a'
    else a'

unfoldable pub run_tts_stop : Opus → SendResult → App → App
unfolding set_device_state wait_for_completion
run_tts_stop o r a =
    let a' = wait_for_completion o a in
    if is_speaking a'.device_state
    then (if is_manual_stop a'.listening_mode
        then set_device_state o r DeviceState.idle a'
        else set_device_state o r DeviceState.listening a')
    else a'

unfoldable pub run_task : Opus → Answers → Task → App → App
unfolding run_tts_start run_tts_stop run_open_chat abort_speaking close_channel set_device_state
run_task o w channel_closed a =
    set_device_state o w.sending DeviceState.idle (emit (set_chat_message "system" "") a)
run_task o w tts_start a = run_tts_start o w.sending a
run_task o w tts_stop a = run_tts_stop o w.sending a
run_task o w (chat_message role text) a = emit (set_chat_message role text) a
run_task o w (emotion name) a = emit (set_emotion name) a
run_task o w (send_audio packet) a = emit (send_packet packet) a
run_task o w open_chat a = run_open_chat o w a
run_task o w abort a = abort_speaking o w.sending a
run_task o w close_chat a = close_channel o w.sending a

-- `ToggleChatState`, called from the user interface.
unfoldable pub toggle_chat_state : Opus → SendResult → App → App
unfolding set_device_state schedule
toggle_chat_state o r a =
    if is_activating a.device_state
    then set_device_state o r DeviceState.idle a
    else if a.has_protocol
    then (if is_idle a.device_state
        then schedule open_chat a
        else if is_speaking a.device_state
        then schedule abort a
        else if is_listening a.device_state
        then schedule close_chat a
        else a)
    else a

-- `OnMessage` in protocols/mqtt_protocol.cc on a goodbye of this session: it schedules `CloseAudioChannel`.
unfoldable pub on_goodbye : App → App
unfolding schedule
on_goodbye a = schedule close_chat a

-- `AbortSpeaking()`, called from the user interface.
unfoldable pub abort_speaking_later : App → App
unfolding schedule
abort_speaking_later a = schedule abort a

-- `cJSON_GetObjectItem` and then `valuestring`: no item, a text, or an item that is no text, whose
-- `valuestring` is null.
pub data Item : Type 0 where
  absent : Item
  value : String → Item
  no_text : Item

-- The application after the message, or `none` where the code reads a null `valuestring`.
unfoldable pub on_tts : (String → Item) → App → Option App
unfolding schedule
on_tts get a = elim (get "state") [
  | value state ↦
      if state == "start"
      then some (schedule tts_start a)
      else if state == "stop"
      then some (schedule tts_stop a)
      else if state == "sentence_start"
      then elim (get "text") [
        | absent ↦ some a
        | value message ↦ some (schedule (chat_message "assistant" message) a)
        | no_text ↦ none
      ]
      else some a
  | _ ↦ none
]

unfoldable pub on_alert : Item → Item → Item → App → Option App
unfolding alert
on_alert (value status) (value message) (value name) a = some (alert status message name true a)
on_alert absent message name a = some a
on_alert status absent name a = some a
on_alert status message absent a = some a
on_alert status message name a = none

-- The callback given to `OnIncomingJson`, on a message whose `type` is this text.
unfoldable pub on_incoming_json : String → (String → Item) → App → Option App
unfolding on_tts on_alert schedule
on_incoming_json type get a =
    if type == "tts"
    then on_tts get a
    else if type == "stt"
    then elim (get "text") [
      | absent ↦ some a
      | value message ↦ some (schedule (chat_message "user" message) a)
      | no_text ↦ none
    ]
    else if type == "llm"
    then elim (get "emotion") [
      | absent ↦ some a
      | value name ↦ some (schedule (emotion name) a)
      | no_text ↦ none
    ]
    else if type == "system"
    then elim (get "command") [ absent ↦ some a | value command ↦ some a | no_text ↦ none ]
    else if type == "alert"
    then on_alert (get "status") (get "message") (get "emotion") a
    else some a
