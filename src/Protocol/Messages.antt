-- ===== src/Protocol/Messages.antt =====
-- protocols/protocol.cc: the texts are compact JSON objects.
use xiaozhi_pc.Base.{ℕ, ◌+◌, ◌*◌, ◌≤◌, ◌^◌, ◌≡◌, ◌↔◌, refl, true, List, [], ◌∷◌, ◌++◌, arith}
use xiaozhi_pc.Base.Text.{Bytes, codes}
use xiaozhi_pc.Application.State.{ListeningMode, realtime, auto_stop, manual_stop}
use xiaozhi_pc.Protocol.{
  AbortReason, no_reason, wake_word_detected, abort_message, wake_word_message, start_message,
  stop_message, iot_states_message, is_timeout,
}

-- A value of a member: a string, or a text that is JSON already.
pub data Value : Type 0 where
  string : Bytes → Value
  raw : Bytes → Value

-- What stands behind a value, `rest`, is an argument.
abbrev print_value : Value → Bytes → Bytes
print_value (string s) rest = b'"' ∷ (s ++ (b'"' ∷ rest))
print_value (raw s) rest = s ++ rest

abbrev print_member : Bytes → Value → Bytes → Bytes
print_member name value rest = b'"' ∷ (name ++ (b'"' ∷ b':' ∷ print_value value rest))

abbrev print_rest : List (Bytes × Value) → Bytes
print_rest [] = codes "}"
print_rest ((name, value) ∷ members) = b',' ∷ print_member name value (print_rest members)

-- A JSON object with at least one member, printed without a space.
abbrev print_object : Bytes × Value → List (Bytes × Value) → Bytes
print_object (name, value) members = b'{' ∷ print_member name value (print_rest members)

abbrev pub typed : Bytes → Bytes → List (Bytes × Value) → Bytes
typed session_id type members =
    print_object (codes "session_id", string session_id) ((codes "type", string type) ∷ members)

abbrev pub reason : AbortReason → List (Bytes × Value)
reason no_reason = []
reason wake_word_detected = (codes "reason", string (codes "wake_word_detected")) ∷ []

abbrev pub mode_name : ListeningMode → Bytes
mode_name auto_stop = codes "auto"
mode_name manual_stop = codes "manual"
mode_name realtime = codes "realtime"

abort_object :
    (sid : Bytes) (r : AbortReason) → abort_message sid r ≡ typed sid (codes "abort") (reason r)
unfolding abort_message
abort_object sid no_reason = refl
abort_object sid wake_word_detected = refl

start_object :
    (sid : Bytes) (m : ListeningMode)
    → start_message sid m
      ≡ typed sid
          (codes "listen")
          ((codes "state", string (codes "start")) ∷ (codes "mode", string (mode_name m)) ∷ [])
unfolding start_message
start_object sid auto_stop = refl
start_object sid manual_stop = refl
start_object sid realtime = refl

-- Each text that is sent is, byte for byte, the compact print of the JSON object with the session
-- id, the type and the members of its kind. The print puts strings between quotation marks with
-- nothing escaped, as the code does, and the states as they are.
pub messages_are_objects :
    (sid word states : Bytes) (r : AbortReason) (m : ListeningMode)
    → (abort_message sid r ≡ typed sid (codes "abort") (reason r))
      × (wake_word_message sid word
          ≡ typed sid
              (codes "listen")
              ((codes "state", string (codes "detect")) ∷ (codes "text", string word) ∷ []))
      × (start_message sid m
          ≡ typed sid
              (codes "listen")
              ((codes "state", string (codes "start")) ∷ (codes "mode", string (mode_name m)) ∷ []))
      × (stop_message sid
          ≡ typed sid (codes "listen") ((codes "state", string (codes "stop")) ∷ []))
      × (iot_states_message sid states
          ≡ typed sid
              (codes "iot")
              ((codes "update", raw (codes "true")) ∷ (codes "states", raw states) ∷ []))
unfolding wake_word_message stop_message iot_states_message
messages_are_objects sid word states r m =
    (abort_object sid r, refl, start_object sid m, refl, refl)

-- When nothing was received for `d` nanoseconds, the channel has timed out exactly when `d` is at
-- least 121 seconds: the whole seconds are compared, so that the 121st second is waited out.
is_timeout_iff : (last d : ℕ) → (is_timeout (last + d) last ≡ true) ↔ (121 * 10 ^ 9 ≤ d)
unfolding is_timeout
is_timeout_iff last d = ground arith
