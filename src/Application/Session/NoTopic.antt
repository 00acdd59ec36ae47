-- ===== src/Application/Session/NoTopic.antt =====
-- application.cc, protocols/mqtt_protocol.cc: a protocol without a topic leaves the application connecting.
use xiaozhi_pc.Base.{
  ℕ, ◌≡◌, refl, sym, subst, Bool, true, false, inl, inr, some, List, [], ◌∷◌, arith, Option-cases,
}
use xiaozhi_pc.Base.Text.{Bytes, text_eq_iff}
use xiaozhi_pc.Nvs.{NvRam}
use xiaozhi_pc.Mqtt.Hello.{Json}
use xiaozhi_pc.Mqtt.Client.{Client, Connect, live, send_text}
use xiaozhi_pc.Mqtt.Opening.{open_audio_channel, request_channel, reset, hello_message}
use xiaozhi_pc.Application.State.{
  DeviceState, AudioStreamPacket, BackgroundJob, open_audio_channel as asks, Opus, App, emit,
}
use xiaozhi_pc.Application.Audio.{
  run_job, on_incoming_audio, audio_loop_output, schedule_background,
}
use xiaozhi_pc.Application.Device.{SendResult, set_device_state, dismiss_alert}
use xiaozhi_pc.Application.Handlers.{Answers, not_opened, run_open_chat, toggle_chat_state}
use xiaozhi_pc.Application.Bounds.{run_job-Keeps}
use xiaozhi_pc.Application.Transitions.{set_device_state_connecting}
use xiaozhi_pc.Application.Session.{
  Event, incoming_audio, incoming_json, audio_round, processor_output, background_step, main_step,
  toggle, abort_key, goodbye, dismiss, clock_tick, background_job, step, run,
}
use xiaozhi_pc.Application.Session.Stuck.{
  run_job-Follows, connecting-Follows, kept_by, main_task-IsStuck, on_incoming_json-MayStuck,
  are_harmless, is_without_abort, IsStuck, MayStuck,
}

on_incoming_audio-IsStuck :
    (p : AudioStreamPacket) (a : App) → IsStuck a → IsStuck (on_incoming_audio p a)
unfolding on_incoming_audio
on_incoming_audio-IsStuck p a s =
    kept_by a (on_incoming_audio p a) (ground arith) (λ k. ground (arith, k)) s

audio_loop_output-IsStuck : (a : App) → IsStuck a → IsStuck (audio_loop_output a)
unfolding audio_loop_output schedule_background
audio_loop_output-IsStuck a s =
    kept_by a (audio_loop_output a) (ground arith) (λ k. ground (arith, k)) s

background_job-IsStuck :
    (o : Opus) (js : List BackgroundJob) (a : App) → IsStuck a → IsStuck (background_job o js a)
unfolding background_job
background_job-IsStuck o [] a s = s
background_job-IsStuck o (j ∷ js) a s =
    let b : App = record a { background = js } in
    kept_by a (run_job o j b) (run_job-Keeps o j b).device_state (run_job-Follows o j b) s

toggle-IsStuck :
    (o : Opus) (r : SendResult) (a : App) → IsStuck a → IsStuck (toggle_chat_state o r a)
unfolding toggle_chat_state
toggle-IsStuck o r a s =
    let e : toggle_chat_state o r a ≡ a = ground (arith, s.state) in subst IsStuck (sym e) s

dismiss-IsStuck : (a : App) → IsStuck a → IsStuck (dismiss_alert a)
unfolding dismiss_alert
dismiss-IsStuck a s =
    let e : dismiss_alert a ≡ a = ground (arith, s.state) in subst IsStuck (sym e) s

step-MayStuck :
    (o : Opus) (e : Event) (a : App)
    → is_without_abort (e ∷ []) ≡ true
    → IsStuck a
    → MayStuck (step o e a)
unfolding step schedule_background
step-MayStuck o (incoming_audio p) a n s = on_incoming_audio-IsStuck p a s
step-MayStuck o (incoming_json type get) a n s = on_incoming_json-MayStuck type get a s
step-MayStuck o audio_round a n s = audio_loop_output-IsStuck a s
step-MayStuck o (processor_output pcm) a n s = kept_by a _ refl (λ k. k) s
step-MayStuck o background_step a n s = background_job-IsStuck o a.background a s
step-MayStuck o (main_step w) a n s = main_task-IsStuck o w a.main_tasks a s.tasks s
step-MayStuck o (toggle r) a n s = toggle-IsStuck o r a s
step-MayStuck o abort_key a n s = cc
step-MayStuck o goodbye a n s = cc
step-MayStuck o dismiss a n s = dismiss-IsStuck a s
step-MayStuck o (clock_tick t) a n s = kept_by a _ refl (λ k. k) s

first_without_abort :
    (e : Event) (es : List Event)
    → is_without_abort (e ∷ es) ≡ true
    → (is_without_abort (e ∷ []) ≡ true) × (is_without_abort es ≡ true)
first_without_abort (incoming_audio p) es n = (refl, n)
first_without_abort (incoming_json type get) es n = (refl, n)
first_without_abort audio_round es n = (refl, n)
first_without_abort (processor_output pcm) es n = (refl, n)
first_without_abort background_step es n = (refl, n)
first_without_abort (main_step w) es n = (refl, n)
first_without_abort (toggle r) es n = (refl, n)
first_without_abort dismiss es n = (refl, n)
first_without_abort (clock_tick t) es n = (refl, n)
first_without_abort _ es n = cc

run-IsStuck :
    (o : Opus) (es : List Event) (a b : App)
    → is_without_abort es ≡ true
    → IsStuck a
    → run o es a ≡ some b
    → IsStuck b
unfolding run
run-IsStuck o [] a b n s q = subst MayStuck q s
run-IsStuck o (e ∷ es) a b n s q = elim (Option-cases (step o e a)) [
  | inl stops ↦ cc (rw (stops, run) at q)
  | inr (c, goes) ↦
      let f = first_without_abort e es n in
      run-IsStuck o es c b f.1 (subst MayStuck goes (step-MayStuck o e a f.0 s))
        (rw (goes, run) at q)
]

run_open_chat-IsStuck :
    (o : Opus) (w : Answers) (a : App)
    → w.opening ≡ not_opened
    → are_harmless a.main_tasks ≡ true
    → IsStuck (run_open_chat o w a)
unfolding run_open_chat
run_open_chat-IsStuck o w a e k =
    let b = emit asks (set_device_state o w.sending DeviceState.connecting a) in
    let f : run_open_chat o w a ≡ b = rw (e, run_open_chat) refl in
    subst IsStuck (sym f) (record {
      state = set_device_state_connecting o w.sending a;
      tasks = connecting-Follows o w.sending a k;
    })

send_text-no_topic :
    (ok : Bool) (text : Bytes) (c : Client)
    → c.config.publish_topic ≡ []
    → send_text ok text c ≡ (false, c)
unfolding send_text
send_text-no_topic ok text c t = ground (arith, t, text_eq_iff c.config.publish_topic [])

-- Without a topic nothing is sent, and nothing is reported.
no_topic :
    (j : Json) (connect : Connect) (ok : Bool) (arrivals : List (ℕ × Bytes)) (r : NvRam)
    (c : Client)
    → c.mqtt ≡ live true
    → c.config.publish_topic ≡ []
    → open_audio_channel j connect ok arrivals r c ≡ (false, reset c, r)
unfolding open_audio_channel request_channel
no_topic j connect ok arrivals r c e t =
    let f = send_text-no_topic ok hello_message (reset c) t in ground (arith, e, f)

-- When the connected protocol has no topic to send its hello to, `OpenAudioChannel` returns false and reports no error: it only
-- resets its flags. The task of a toggle, on that answer, leaves the application connecting, and there it stays through any events of
-- all of the threads, further toggles and messages of the server included, in which the keyboard does not abort and no goodbye arrives,
-- if the tasks that waited before do nothing to a device that is connecting.
pub no_topic_stuck :
    (j : Json) (connect : Connect) (ok : Bool) (arrivals : List (ℕ × Bytes)) (r : NvRam)
    (c : Client) (o : Opus) (w : Answers) (es : List Event) (a b : App)
    → c.mqtt ≡ live true
    → c.config.publish_topic ≡ []
    → w.opening ≡ not_opened
    → are_harmless a.main_tasks ≡ true
    → is_without_abort es ≡ true
    → run o es (run_open_chat o w a) ≡ some b
    → (open_audio_channel j connect ok arrivals r c ≡ (false, reset c, r))
      × (b.device_state ≡ DeviceState.connecting)
no_topic_stuck j connect ok arrivals r c o w es a b m t e k n q = (
  no_topic j connect ok arrivals r c m t,
  (run-IsStuck o es (run_open_chat o w a) b n (run_open_chat-IsStuck o w a e k) q).state,
)
