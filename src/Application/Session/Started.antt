-- ===== src/Application/Session/Started.antt =====
-- application.cc: a conversation from the start of the program.
use xiaozhi_pc.Base.{ℕ, refl, ap, ◌∷◌}
use xiaozhi_pc.Application.State.{DeviceState, Opus}
use xiaozhi_pc.Application.Device.{sent}
use xiaozhi_pc.Application.Transitions.{Status}
use xiaozhi_pc.Application.Start.{initial, ProtocolStart, start_app, start_app-status}
use xiaozhi_pc.Application.Session.{toggle}
use xiaozhi_pc.Application.Session.Quiet.{start_app-IsQuiet}
use xiaozhi_pc.Application.Session.Conversation.{Ends, loop_step, turns, conversation}

-- After `Start`, whatever the start of the protocol gave, a conversation of any length runs to its end, given that the channel opens
-- when the key asks for it and what is sent then is sent: the device listens then, and no task is left.
pub conversation-start_app :
    (o : Opus) (p : ProtocolStart) (codec_rate rate duration n : ℕ)
    → Ends o
        (toggle sent ∷ loop_step rate duration ∷ turns rate duration n)
        DeviceState.listening
        (start_app o p (initial codec_rate))
conversation-start_app o p codec_rate rate duration n =
    conversation o rate duration n (start_app o p (initial codec_rate))
      (start_app-IsQuiet o p codec_rate)
      (ap (λ (s : Status). s.device_state) (start_app-status o p (initial codec_rate) refl))
