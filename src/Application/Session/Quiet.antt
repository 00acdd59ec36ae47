-- ===== src/Application/Session/Quiet.antt =====
-- application.cc: `SetDeviceState` and `Start` leave no task and no job behind.
use Prim.Native.String.{String}
use xiaozhi_pc.Base.{ℕ, ◌≡◌, refl, ◌∙◌, true, [], arith}
use xiaozhi_pc.Application.State.{DeviceState, Opus, App, emit}
use xiaozhi_pc.Application.Audio.{wait_for_completion, run_jobs, reset_decoder}
use xiaozhi_pc.Application.Device.{
  sent, send, change_state, enter, enter_idle, enter_connecting, enter_listening, enter_speaking,
  set_device_state, DeviceState-discrete,
}
use xiaozhi_pc.Base.{if_cases}
use xiaozhi_pc.Application.State.{Effect, set_emotion, set_status, send_start_listening}
use xiaozhi_pc.Application.Audio.{is_idle}
use xiaozhi_pc.Application.Device.{
  SendResult, not_sent, send_failed, on_network_error, alert, set_idle, start_processor,
}
use xiaozhi_pc.Application.Start.{
  initial, ProtocolStart, started, not_started, start_failed, start_codec, start_protocol, announce,
  start_app,
}
use xiaozhi_pc.Application.Start

-- Nothing waits to be run, and the channel is there to be opened.
pub record IsQuiet (a : App) : Type 0 where
  pub no_tasks : a.main_tasks ≡ []
  pub no_jobs : a.background ≡ []
  pub protocol : a.has_protocol ≡ true

change_state-IsQuiet :
    (o : Opus) (d : DeviceState) (a : App) → IsQuiet a → IsQuiet (change_state o d a)
unfolding change_state wait_for_completion run_jobs
change_state-IsQuiet o d a q = record {
  no_tasks = rw (q.no_jobs, run_jobs) q.no_tasks;
  no_jobs = rw (q.no_jobs, run_jobs) refl;
  protocol = rw (q.no_jobs, run_jobs) q.protocol;
}

kept :
    (a b : App)
    → IsQuiet a
    → b.main_tasks ≡ a.main_tasks
    → b.background ≡ a.background
    → b.has_protocol ≡ a.has_protocol
    → IsQuiet b
kept a b q t j p = record {
  no_tasks = t ∙ q.no_tasks;
  no_jobs = j ∙ q.no_jobs;
  protocol = p ∙ q.protocol;
}

enter_idle-IsQuiet : (a : App) → IsQuiet a → IsQuiet (enter_idle a)
unfolding enter_idle
enter_idle-IsQuiet a q = kept a _ q refl refl refl

on_network_error-IsQuiet :
    (o : Opus) (m : String) (a : App) → IsQuiet a → IsQuiet (on_network_error o m a)
unfolding on_network_error alert reset_decoder set_idle
on_network_error-IsQuiet o m a q = kept (set_idle o a) _ idle refl refl refl
  where
    idle : IsQuiet (set_idle o a)
    idle =
        if_cases IsQuiet (is_idle a.device_state) a (enter_idle (change_state o DeviceState.idle a))
          (λ _. q) (λ _. enter_idle-IsQuiet _ (change_state-IsQuiet o DeviceState.idle a q))

send-IsQuiet :
    (o : Opus) (r : SendResult) (e : Effect) (a : App) → IsQuiet a → IsQuiet (send o r e a)
unfolding send
send-IsQuiet o sent e a q = kept a _ q refl refl refl
send-IsQuiet o not_sent e a q = q
send-IsQuiet o (send_failed m) e a q = on_network_error-IsQuiet o m a q

enter_listening-IsQuiet :
    (o : Opus) (r : SendResult) (a : App) → IsQuiet a → IsQuiet (enter_listening o r a)
unfolding enter_listening
enter_listening-IsQuiet o r a q =
    let b = emit (set_emotion "neutral") (emit (set_status "LISTENING") a) in
    let p = kept a b q refl refl refl in
    if_cases IsQuiet b.processor_running b
      (start_processor (send o r (send_start_listening b.listening_mode) b)) (λ _. p)
      (λ _. kept _ _ (send-IsQuiet o r (send_start_listening b.listening_mode) b p) refl refl refl)

enter-IsQuiet :
    (o : Opus) (r : SendResult) (d : DeviceState) (a : App) → IsQuiet a → IsQuiet (enter o r d a)
unfolding enter enter_connecting enter_speaking reset_decoder
enter-IsQuiet o r DeviceState.idle a q = enter_idle-IsQuiet a q
enter-IsQuiet o r DeviceState.unknown a q = enter_idle-IsQuiet a q
enter-IsQuiet o r DeviceState.connecting a q = kept a _ q refl refl refl
enter-IsQuiet o r DeviceState.listening a q = enter_listening-IsQuiet o r a q
enter-IsQuiet o r DeviceState.speaking a q = kept a _ q (ground arith) (ground arith) (ground arith)
enter-IsQuiet o r _ a q = q

pub set_device_state-IsQuiet :
    (o : Opus) (r : SendResult) (d : DeviceState) (a : App)
    → IsQuiet a
    → IsQuiet (set_device_state o r d a)
unfolding set_device_state
set_device_state-IsQuiet o r d a q =
    elim (DeviceState-discrete a.device_state d)
      as (λ b. IsQuiet (elim b [ yes _ ↦ a | no _ ↦ enter o r d (change_state o d a) ])) [
        | yes _ ↦ q
        | no _ ↦ enter-IsQuiet o r d (change_state o d a) (change_state-IsQuiet o d a q)
      ]

starting_waits :
    (o : Opus) (rate : ℕ)
    → ((set_device_state o not_sent DeviceState.starting (initial rate)).main_tasks ≡ [])
      × ((set_device_state o not_sent DeviceState.starting (initial rate)).background ≡ [])
unfolding set_device_state enter change_state wait_for_completion run_jobs
starting_waits o rate =
    elim (DeviceState-discrete DeviceState.unknown DeviceState.starting)
      as (λ b.
        let c : App = elim b [
          | yes _ ↦ initial rate
          | no _ ↦
              enter o not_sent DeviceState.starting
                (change_state o DeviceState.starting (initial rate))
        ] in
        (c.main_tasks ≡ []) × (c.background ≡ [])) [ yes _ ↦ (refl, refl) | no _ ↦ (refl, refl) ]

start_codec-IsQuiet : (o : Opus) (rate : ℕ) → IsQuiet (start_codec o (initial rate))
unfolding start_codec
start_codec-IsQuiet o rate = record {
  no_tasks = (starting_waits o rate).0;
  no_jobs = (starting_waits o rate).1;
  protocol = refl;
}

start_protocol-IsQuiet :
    (o : Opus) (p : ProtocolStart) (a : App) → IsQuiet a → IsQuiet (start_protocol o p a)
unfolding start_protocol
start_protocol-IsQuiet o started a q = q
start_protocol-IsQuiet o not_started a q = q
start_protocol-IsQuiet o (start_failed m) a q = on_network_error-IsQuiet o m a q

start_processor-IsQuiet : (o : Opus) (a : App) → IsQuiet a → IsQuiet (Start.start_processor o a)
unfolding Start.start_processor
start_processor-IsQuiet o a q =
    let b : App = record a { processor_running = true } in
    set_device_state-IsQuiet o not_sent DeviceState.idle b (kept a b q refl refl refl)

announce-IsQuiet : (p : ProtocolStart) (a : App) → IsQuiet a → IsQuiet (announce p a)
unfolding announce reset_decoder
announce-IsQuiet started a q = kept a _ q refl refl refl
announce-IsQuiet not_started a q = q
announce-IsQuiet (start_failed m) a q = q

pub start_app-IsQuiet :
    (o : Opus) (p : ProtocolStart) (rate : ℕ) → IsQuiet (start_app o p (initial rate))
unfolding start_app
start_app-IsQuiet o p rate =
    announce-IsQuiet p _
      (start_processor-IsQuiet o _ (start_protocol-IsQuiet o p _ (start_codec-IsQuiet o rate)))
