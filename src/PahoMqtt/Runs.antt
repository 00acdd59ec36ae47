-- ===== src/PahoMqtt/Runs.antt =====
-- porting/impl/paho_mqtt.cc: sequences of calls and of the library's reports.
use xiaozhi_pc.Base.{ℕ, ◌≡◌, refl, ◌∙◌, ap, Bool, true, false, ◌||◌, List, [], ◌∷◌, arith, ◌==◌}
use xiaozhi_pc.Base.Text.{Bytes}
use xiaozhi_pc.Base.Int.{ℤ}
use xiaozhi_pc.PahoMqtt.{
  SendContext, PahoMqtt, Connecting, destroy_old, reconnect, connect, connlost, message_arrived,
  connect_succeeds, disconnect_succeeds, publish, release, send_answered, disconnect, subscribe,
  unsubscribe,
}

-- A call of a method, or a report of the library. The failures of connecting and disconnecting and
-- the confirmations of subscriptions are only printed.
pub data Event : Type 0 where
  connects : Connecting → Bytes → ℤ → Bytes → Bytes → Bytes → Event
  publishes : Bool → Bytes → Bytes → ℕ → Event
  disconnects : Bool → Event
  subscribes : Bool → Bytes → ℕ → Event
  unsubscribes : Bool → Bytes → Event
  connection_lost : Bool → Event
  connected_reported disconnected_reported connect_failed disconnect_failed : Event
  subscribed unsubscribed : Event
  message_reported : Bytes → Bytes → Event
  sent_reported send_failed : ℕ → Event

unfoldable pub apply : Event → PahoMqtt → PahoMqtt
unfolding connect publish disconnect subscribe unsubscribe connlost connect_succeeds
    disconnect_succeeds message_arrived send_answered
apply (connects o address port client_id user pass) p =
    (connect o address port client_id user pass p).1
apply (publishes ok topic payload qos) p = (publish ok topic payload qos p).1
apply (disconnects ok) p = disconnect ok p
apply (subscribes ok topic qos) p = (subscribe ok topic qos p).1
apply (unsubscribes ok topic) p = (unsubscribe ok topic p).1
apply (connection_lost ok) p = connlost ok p
apply connected_reported p = connect_succeeds p
apply disconnected_reported p = disconnect_succeeds p
apply (message_reported topic payload) p = message_arrived topic payload p
apply (sent_reported a) p = send_answered a p
apply (send_failed a) p = send_answered a p
apply _ p = p

unfoldable pub apply_all : List Event → PahoMqtt → PahoMqtt
unfolding apply
apply_all [] p = p
apply_all (e ∷ es) p = apply_all es (apply e p)

-- What one event says of the connection, and what a sequence says in the end.
abbrev pub reported : Event → Bool → Bool
reported connected_reported b = true
reported disconnected_reported b = false
reported _ b = b

unfoldable pub last_report : Bool → List Event → Bool
last_report b [] = b
last_report b (e ∷ es) = last_report (reported e b) es

connect_connected :
    (o : Connecting) (address : Bytes) (port : ℤ) (client_id user pass : Bytes) (p : PahoMqtt)
    → (connect o address port client_id user pass p).1.connected ≡ p.connected
unfolding connect destroy_old reconnect
connect_connected o address port client_id user pass p = ground arith

connect_succeeds_connected : (p : PahoMqtt) → (connect_succeeds p).connected ≡ true
unfolding connect_succeeds
connect_succeeds_connected p = ground arith

disconnect_succeeds_connected : (p : PahoMqtt) → (disconnect_succeeds p).connected ≡ false
unfolding disconnect_succeeds
disconnect_succeeds_connected p = ground arith

message_arrived_connected :
    (topic payload : Bytes) (p : PahoMqtt)
    → (message_arrived topic payload p).connected ≡ p.connected
unfolding message_arrived
message_arrived_connected topic payload p = ground arith

apply_connected : (e : Event) (p : PahoMqtt) → (apply e p).connected ≡ reported e p.connected
unfolding apply publish disconnect subscribe unsubscribe connlost reconnect send_answered
apply_connected (connects o address port client_id user pass) p =
    connect_connected o address port client_id user pass p
apply_connected (publishes ok topic payload qos) p = refl
apply_connected (disconnects ok) p = refl
apply_connected (subscribes ok topic qos) p = refl
apply_connected (unsubscribes ok topic) p = refl
apply_connected (connection_lost ok) p = refl
apply_connected connected_reported p = connect_succeeds_connected p
apply_connected disconnected_reported p = disconnect_succeeds_connected p
apply_connected connect_failed p = refl
apply_connected disconnect_failed p = refl
apply_connected subscribed p = refl
apply_connected unsubscribed p = refl
apply_connected (message_reported topic payload) p = message_arrived_connected topic payload p
apply_connected (sent_reported a) p = refl
apply_connected (send_failed a) p = refl

-- After any sequence of calls and reports `IsConnected` says what the latest report of a
-- connection that was made or was closed on request says, or what it said before: neither a lost
-- connection nor a failed attempt, nor a new call of `Connect`, changes it.
pub connected-last_report :
    (es : List Event) (p : PahoMqtt) → (apply_all es p).connected ≡ last_report p.connected es
unfolding apply_all last_report
connected-last_report [] p = refl
connected-last_report (e ∷ es) p =
    connected-last_report es (apply e p) ∙ ap (λ b. last_report b es) (apply_connected e p)

-- Whether a context of that address is allocated.
abbrev pub has_context : ℕ → List SendContext → Bool
has_context a [] = false
has_context a (c ∷ cs) = c.address == a || has_context a cs

-- Whether an event is the library's answer to the message with that context.
abbrev pub answers : ℕ → Event → Bool
answers a (sent_reported b) = b == a
answers a (send_failed b) = b == a
answers a _ = false

-- The library does not answer the message with that context.
abbrev pub IsSilent : ℕ → List Event → Type 0
IsSilent a [] = Unit {0}
IsSilent a (e ∷ es) = (answers a e ≡ false) × IsSilent a es

has_context-release :
    (a b : ℕ) (cs : List SendContext)
    → (b == a) ≡ false
    → has_context a (release b cs) ≡ has_context a cs
unfolding release
has_context-release a b [] h = refl
has_context-release a b (c ∷ cs) h = ground (arith, has_context-release a b cs h)

connect_contexts :
    (o : Connecting) (address : Bytes) (port : ℤ) (client_id user pass : Bytes) (p : PahoMqtt)
    → (connect o address port client_id user pass p).1.contexts ≡ p.contexts
unfolding connect destroy_old reconnect
connect_contexts o address port client_id user pass p = ground arith

apply-has_context :
    (e : Event) (a : ℕ) (p : PahoMqtt)
    → answers a e ≡ false
    → has_context a p.contexts ≡ true
    → has_context a (apply e p).contexts ≡ true
unfolding apply publish disconnect subscribe unsubscribe connlost reconnect send_answered
    connect_succeeds disconnect_succeeds message_arrived
apply-has_context (connects o address port client_id user pass) a p s h =
    ap (has_context a) (connect_contexts o address port client_id user pass p) ∙ h
apply-has_context (publishes ok topic payload qos) a p s h = ground arith
apply-has_context (disconnects ok) a p s h = h
apply-has_context (subscribes ok topic qos) a p s h = h
apply-has_context (unsubscribes ok topic) a p s h = h
apply-has_context (connection_lost ok) a p s h = h
apply-has_context connected_reported a p s h = ground arith
apply-has_context disconnected_reported a p s h = ground arith
apply-has_context connect_failed a p s h = h
apply-has_context disconnect_failed a p s h = h
apply-has_context subscribed a p s h = h
apply-has_context unsubscribed a p s h = h
apply-has_context (message_reported topic payload) a p s h = ground arith
apply-has_context (sent_reported b) a p s h = has_context-release a b p.contexts s ∙ h
apply-has_context (send_failed b) a p s h = has_context-release a b p.contexts s ∙ h

apply_all-has_context :
    (es : List Event) (a : ℕ) (p : PahoMqtt)
    → IsSilent a es
    → has_context a p.contexts ≡ true
    → has_context a (apply_all es p).contexts ≡ true
unfolding apply_all
apply_all-has_context [] a p s h = h
apply_all-has_context (e ∷ es) a p s h =
    apply_all-has_context es a (apply e p) s.1 (apply-has_context e a p s.0 h)

-- When the library refuses a message at once, and so never answers it, its context stays allocated
-- after any sequence of calls and reports.
publish_refused_leaks :
    (topic payload : Bytes) (qos : ℕ) (p : PahoMqtt) (es : List Event)
    → IsSilent p.next_address es
    → has_context p.next_address (apply_all es (publish false topic payload qos p).1).contexts
      ≡ true
unfolding publish
publish_refused_leaks topic payload qos p es s =
    apply_all-has_context es p.next_address (publish false topic payload qos p).1 s (ground arith)
