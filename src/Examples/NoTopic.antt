-- ===== src/Examples/NoTopic.antt =====
-- A protocol without a topic.
use xiaozhi_pc.Base.{◌≡◌, refl, true, false, some, List, [], ◌∷◌}
use xiaozhi_pc.Application.State.{DeviceState, App}
use xiaozhi_pc.Application.Audio.{schedule, wait_for_completion, run_jobs}
use xiaozhi_pc.Application.Device.{sent, set_device_state, enter, enter_connecting, change_state}
use xiaozhi_pc.Application.Handlers.{
  run_open_chat, toggle_chat_state, on_incoming_json, on_tts, run_task, run_tts_start,
}
use xiaozhi_pc.Application.Session.{Event, toggle, main_step, step, run}
use xiaozhi_pc.Application.Session.Conversation.{tts_message}
use xiaozhi_pc.Application.Session.NoTopic.{no_topic_stuck}
use xiaozhi_pc.Mqtt.Client.{Client, live}
use xiaozhi_pc.Mqtt.Opening.{open_audio_channel, reset}
use xiaozhi_pc.Examples.App.{opus, answers, app}
use xiaozhi_pc.Examples.Network.{json, client, connect}
use xiaozhi_pc.Examples.Data.{store}

-- The key is pressed again, the server speaks, and the main loop runs what there is.
abbrev pressed : List Event
pressed = toggle sent ∷ tts_message "start" ∷ main_step answers ∷ []

abbrev silent : Client
silent = record client { mqtt = live true; config = record client.config { publish_topic = [] } }

still_connecting :
    (b : App) × (run opus pressed (run_open_chat opus answers (app DeviceState.idle)) ≡ some b)
unfolding run step toggle_chat_state on_incoming_json on_tts run_task run_tts_start schedule
    run_open_chat set_device_state enter enter_connecting change_state wait_for_completion run_jobs
still_connecting = (_, refl)

no_topic_stuck_example :
    (open_audio_channel json connect true [] store silent ≡ (false, reset silent, store))
    × (still_connecting.0.device_state ≡ DeviceState.connecting)
no_topic_stuck_example =
    no_topic_stuck json connect true [] store silent opus answers pressed (app DeviceState.idle)
      still_connecting.0 refl refl refl refl refl still_connecting.1
