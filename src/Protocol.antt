-- ===== src/Protocol.antt =====
-- protocols/protocol.cc: the texts that the device sends to the server, and the timeout of the
-- channel. A text is the argument of `SendText`; texts are in bytes.
pub mod Messages
pub mod Descriptors
use xiaozhi_pc.Base.{
  ℕ, zero, suc, ◌+◌, ◌-◌, ◌/◌, ◌^◌, Bool, ltb, Option, none, some, List, [], ◌∷◌, ◌++◌,
  if◌then◌else◌,
}
use xiaozhi_pc.Base.Text.{Bytes, codes}
use xiaozhi_pc.Application.State.{ListeningMode, realtime, auto_stop, manual_stop}

pub data AbortReason : Type 0 where
  no_reason wake_word_detected : AbortReason

abbrev reason_member : AbortReason → Bytes
reason_member wake_word_detected = codes ",\"reason\":\"wake_word_detected\""
reason_member no_reason = []

-- `SendAbortSpeaking`
pub abort_message : Bytes → AbortReason → Bytes
abort_message session_id reason =
    codes "{\"session_id\":\""
    ++ (session_id ++ (codes "\",\"type\":\"abort\"" ++ (reason_member reason ++ codes "}")))

-- `SendWakeWordDetected`
pub wake_word_message : Bytes → Bytes → Bytes
wake_word_message session_id wake_word =
    codes "{\"session_id\":\""
    ++ (session_id
        ++ (codes "\",\"type\":\"listen\",\"state\":\"detect\",\"text\":\""
            ++ (wake_word ++ codes "\"}")))

abbrev mode_member : ListeningMode → Bytes
mode_member realtime = codes ",\"mode\":\"realtime\""
mode_member auto_stop = codes ",\"mode\":\"auto\""
mode_member manual_stop = codes ",\"mode\":\"manual\""

-- `SendStartListening`
pub start_message : Bytes → ListeningMode → Bytes
start_message session_id mode =
    codes "{\"session_id\":\""
    ++ (session_id
        ++ (codes "\""
            ++ (codes ",\"type\":\"listen\",\"state\":\"start\""
                ++ (mode_member mode ++ codes "}"))))

-- `SendStopListening`
pub stop_message : Bytes → Bytes
stop_message session_id =
    codes "{\"session_id\":\"" ++ (session_id ++ codes "\",\"type\":\"listen\",\"state\":\"stop\"}")

-- `SendIotStates`
pub iot_states_message : Bytes → Bytes → Bytes
iot_states_message session_id states =
    codes "{\"session_id\":\""
    ++ (session_id
        ++ (codes "\",\"type\":\"iot\",\"update\":true,\"states\":" ++ (states ++ codes "}")))

-- `IsTimeout`, in nanoseconds of the steady clock
unfoldable pub is_timeout : ℕ → ℕ → Bool
is_timeout now last_incoming_time = ltb 120 ((now - last_incoming_time) / 10 ^ 9)

-- A member of an object that is built with cJSON: a text, `true`, or an array of one copied value.
pub data Member (V : Type 0) : Type 0 where
  text_member : Bytes → Member V
  true_member : Member V
  copied : V → Member V

-- The calls of cJSON that `SendIotDescriptors` makes.
pub record ArrayJson : Type 1 where
  pub Value : Type 0
  pub parse : Bytes → Option Value
  pub is_array : Value → Bool
  pub array_size : Value → ℕ
  pub array_item : Value → ℕ → Option Value
  -- `cJSON_PrintUnformatted` of an object that was built
  pub print_unformatted : List (Bytes × Member Value) → Option Bytes

module _ (j : ArrayJson) where
  -- The object that carries one descriptor.
  abbrev pub descriptor_object : Bytes → j.Value → List (Bytes × Member j.Value)
  descriptor_object session_id descriptor =
      (codes "session_id", text_member session_id)
      ∷ (codes "type", text_member (codes "iot"))
      ∷ (codes "update", true_member)
      ∷ (codes "descriptors", copied descriptor)
      ∷ []

  -- The texts that are sent in one round.
  abbrev pub descriptor_texts : Bytes → Option j.Value → List Bytes
  descriptor_texts session_id none = []
  descriptor_texts session_id (some descriptor) =
      elim (j.print_unformatted (descriptor_object session_id descriptor)) [
        | none ↦ []
        | some message ↦ message ∷ []
      ]

  -- The loop, with the rounds that are left.
  unfoldable pub descriptor_rounds : Bytes → j.Value → ℕ → ℕ → List Bytes
  descriptor_rounds session_id root zero i = []
  descriptor_rounds session_id root (suc left) i =
      descriptor_texts session_id (j.array_item root i)
      ++ descriptor_rounds session_id root left (i + 1)

  -- `SendIotDescriptors`: the texts that it sends, in order
  unfoldable pub send_iot_descriptors : Bytes → Bytes → List Bytes
  unfolding descriptor_rounds
  send_iot_descriptors session_id descriptors = elim (j.parse descriptors) [
    | none ↦ []
    | some root ↦
        if j.is_array root then descriptor_rounds session_id root (j.array_size root) 0 else []
  ]
