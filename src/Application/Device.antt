-- ===== src/Application/Device.antt =====
-- application.cc: `SetDeviceState` and what it calls, the network error that may come back from the
-- protocol while it sends, `Alert` and `DismissAlert`.
use Prim.Native.String.{String}
use xiaozhi_pc.Base.{Bool, true, false, [], if◌then◌else◌}
use xiaozhi_pc.Application.State.{
  DeviceState, ListeningMode, realtime, Effect, set_status, set_emotion, set_chat_message,
  led_state_changed, send_start_listening, Opus, App, emit,
}
use xiaozhi_pc.Application.Audio.{wait_for_completion, reset_decoder, is_idle}

pub DeviceState-discrete : Discrete DeviceState
DeviceState-discrete = hlevel

-- What `SendText` of the protocol does: it sends, it returns quietly since there is no topic, or
-- it reports an error through `OnNetworkError`.
pub data SendResult : Type 0 where
  sent : SendResult
  not_sent : SendResult
  send_failed : String → SendResult

abbrev pub is_realtime : ListeningMode → Bool
is_realtime realtime = true
is_realtime _ = false

abbrev pub stop_processor : App → App
stop_processor a = record a { processor_running = false }

abbrev pub start_processor : App → App
start_processor a = record a { processor_running = true }

-- `case kDeviceStateUnknown: case kDeviceStateIdle:`
unfoldable pub enter_idle : App → App
enter_idle a = stop_processor (emit (set_emotion "neutral") (emit (set_status "STANDBY") a))

unfoldable pub enter_connecting : App → App
enter_connecting a =
    let a' =
      emit (set_chat_message "system" "")
        (emit (set_emotion "neutral") (emit (set_status "CONNECTING") a)) in
    record a' { timestamp_queue = []; last_output_timestamp = 0 }

unfoldable pub enter_speaking : App → App
unfolding reset_decoder
enter_speaking a =
    let a' = emit (set_status "SPEAKING") a in
    reset_decoder (if is_realtime a'.listening_mode then a' else stop_processor a')

-- The first part of `SetDeviceState`, up to the `switch`.
unfoldable pub change_state : Opus → DeviceState → App → App
unfolding wait_for_completion
change_state o state a =
    emit led_state_changed (wait_for_completion o (record a { device_state = state }))

-- `SetDeviceState(kDeviceStateIdle)`
unfoldable pub set_idle : Opus → App → App
unfolding enter_idle change_state
set_idle o a = if is_idle a.device_state then a else enter_idle (change_state o DeviceState.idle a)

-- `Alert`; `PlaySound` does nothing.
unfoldable pub alert : String → String → String → Bool → App → App
unfolding reset_decoder
alert status message emotion has_sound a =
    let a' =
      emit (set_chat_message "system" message)
        (emit (set_emotion emotion) (emit (set_status status) a)) in
    if has_sound then reset_decoder a' else a'

-- The callback given to `OnNetworkError`.
unfoldable pub on_network_error : Opus → String → App → App
unfolding set_idle alert
on_network_error o message a = alert "ERROR" message "sad" true (set_idle o a)

-- A call that sends a text, with the effect that it is to have.
unfoldable pub send : Opus → SendResult → Effect → App → App
unfolding on_network_error
send o sent e a = emit e a
send o not_sent e a = a
send o (send_failed message) e a = on_network_error o message a

unfoldable pub enter_listening : Opus → SendResult → App → App
unfolding send
enter_listening o r a =
    let a' = emit (set_emotion "neutral") (emit (set_status "LISTENING") a) in
    if a'.processor_running
    then a'
    else start_processor (send o r (send_start_listening a'.listening_mode) a')

-- The `switch`.
unfoldable pub enter : Opus → SendResult → DeviceState → App → App
unfolding enter_idle enter_connecting enter_listening enter_speaking
enter o r DeviceState.unknown a = enter_idle a
enter o r DeviceState.idle a = enter_idle a
enter o r DeviceState.connecting a = enter_connecting a
enter o r DeviceState.listening a = enter_listening o r a
enter o r DeviceState.speaking a = enter_speaking a
enter o r _ a = a

-- `SetDeviceState`; the result is that of the text that listening sends.
unfoldable pub set_device_state : Opus → SendResult → DeviceState → App → App
unfolding DeviceState-discrete enter change_state
set_device_state o r state a = elim (DeviceState-discrete a.device_state state) [
  | yes _ ↦ a
  | no _ ↦ enter o r state (change_state o state a)
]

unfoldable pub dismiss_alert : App → App
dismiss_alert a =
    if is_idle a.device_state
    then emit (set_chat_message "system" "")
        (emit (set_emotion "neutral") (emit (set_status "STANDBY") a))
    else a
