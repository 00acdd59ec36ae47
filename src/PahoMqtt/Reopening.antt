-- ===== src/PahoMqtt/Reopening.antt =====
-- porting/impl/paho_mqtt.cc and protocols/mqtt_protocol.cc: what `OpenAudioChannel` makes of the
-- library's reports, through `IsConnected`.
use xiaozhi_pc.Base.{ℕ, ◌≡◌, Bool, true, false, List, if◌then◌else◌, ap, ◌∙◌}
use xiaozhi_pc.Base.Text.{Bytes}
use xiaozhi_pc.Nvs.{NvRam}
use xiaozhi_pc.PahoMqtt.{PahoMqtt}
use xiaozhi_pc.PahoMqtt.Runs.{Event, apply_all, last_report, connected-last_report}
use xiaozhi_pc.Mqtt.Hello.{Json}
use xiaozhi_pc.Mqtt.Client.{Client, Connect, live, start_mqtt_client}
use xiaozhi_pc.Mqtt.Opening.{request_channel, open_audio_channel}

-- The channel is asked for over the connection that there is.
pub over_connection : (j : Json) → Bool → List (ℕ × Bytes) → NvRam → Client → Bool × Client × NvRam
over_connection j ok arrivals r c =
    let (opened, c') = request_channel j ok arrivals c in (opened, c', r)

-- Another adapter is started first.
pub over_another :
    (j : Json) → Connect → Bool → List (ℕ × Bytes) → NvRam → Client → Bool × Client × NvRam
unfolding over_connection
over_another j connect ok arrivals r c =
    let (started, c', r') = start_mqtt_client connect true r c in
    if started then over_connection j ok arrivals r' c' else (false, c', r')

open_audio_channel_live :
    (b : Bool) (j : Json) (connect : Connect) (ok : Bool) (arrivals : List (ℕ × Bytes)) (r : NvRam)
    (c : Client)
    → c.mqtt ≡ live b
    → open_audio_channel j connect ok arrivals r c
      ≡ (if b then over_connection j ok arrivals r c else over_another j connect ok arrivals r c)
unfolding open_audio_channel over_connection over_another
open_audio_channel_live true j connect ok arrivals r c e = simp (e, open_audio_channel)
open_audio_channel_live false j connect ok arrivals r c e = simp (e, open_audio_channel)

-- `OpenAudioChannel` with a library adapter that has seen any calls and reports. When the latest
-- report of a connection that was made or closed on request says made, it asks for the channel over
-- that connection, also if the connection was lost since. Otherwise, also while a connection is being
-- made, it starts another adapter first.
pub open_audio_channel-last_report :
    (es : List Event) (p : PahoMqtt) (j : Json) (connect : Connect) (ok : Bool)
    (arrivals : List (ℕ × Bytes)) (r : NvRam) (c : Client)
    → c.mqtt ≡ live (apply_all es p).connected
    → open_audio_channel j connect ok arrivals r c ≡ (
        if last_report p.connected es
        then over_connection j ok arrivals r c
        else over_another j connect ok arrivals r c)
open_audio_channel-last_report es p j connect ok arrivals r c e =
    open_audio_channel_live (last_report p.connected es) j connect ok arrivals r c
      (e ∙ ap live (connected-last_report es p))
