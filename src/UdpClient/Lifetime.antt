-- ===== src/UdpClient/Lifetime.antt =====
-- porting/impl/udp_client.cc: the end of a client that was connected once.
use xiaozhi_pc.Base.{
  ◌≡◌, ◌≢◌, refl, true, false, some, ◌⊎◌, inl, inr, arith, Bool, not, ◌||◌, [], ◌∷◌, ◌++◌, if_cases,
  if◌then◌else◌,
}
use xiaozhi_pc.Base.Text.{Bytes}
use xiaozhi_pc.Base.Int.{ℤ, negsuc}
use xiaozhi_pc.UdpClient.{
  ReceiverAt, Received, some_bytes, no_bytes, interrupted, failed, receiving, behind_recv, leaving,
  after_recv, owner, outside, disconnecting, joining, returned, destroyed, terminated, top, exited,
  Client, initial, no_socket, bad_address, good_address, Connecting, connect, send, leave, Step,
  connects, sends, destroys, leaves, disconnects_idle, disconnects, closes_socket, joins,
  checks_top, leaves_top, receives, goes_on, leaves_recv, calls_back, exits, Reach, here, next,
}

-- A connected client has a running receiver, `Disconnect` holds the mutex while the receiver runs,
-- and the thread object of a receiver is never joined.
record Inv (c : Client) : Type 0 where
  alive : c.owner_at ≢ terminated → c.connected ≡ true → c.receiver_at ≢ exited
  inside :
      (c.owner_at ≡ disconnecting) ⊎ (c.owner_at ≡ joining)
      → (c.mutex ≡ some owner) × (c.receiver_at ≢ exited)
  kept : c.started ≡ true → c.joinable ≡ true
  gone : c.owner_at ≡ destroyed → c.started ≡ false

-- Another place of the receiver in its loop.
moves-Inv : (x : ReceiverAt) (c : Client) → x ≢ exited → Inv c → Inv (record c { receiver_at = x })
moves-Inv x c ne v = record {
  alive = λ n e. ne;
  inside = λ i. ((v.inside i).0, ne);
  kept = v.kept;
  gone = v.gone;
}

-- The owner is outside, and what `Connect` tries fails.
fails-Inv :
    (b : Bool) (c : Client) → c.owner_at ≡ outside → Inv c → Inv (record c { has_socket = b })
fails-Inv b c a v = record { alive = v.alive; inside = v.inside; kept = v.kept; gone = v.gone }

connect-Inv : (o : Connecting) (c : Client) → c.owner_at ≡ outside → Inv c → Inv (connect o c).1
unfolding connect
connect-Inv no_socket c a v =
    if_cases (λ (q : Bool × Client). Inv q.1) c.connected (true, c)
      (false, record c { has_socket = false }) (λ t. v) (λ t. fails-Inv false c a v)
connect-Inv bad_address c a v =
    if_cases (λ (q : Bool × Client). Inv q.1) c.connected (true, c)
      (false, record c { has_socket = true }) (λ t. v) (λ t. fails-Inv true c a v)
connect-Inv good_address c a v =
    let c' : Client = record c { connected = true; has_socket = true } in
    let broken : Client = record c' { owner_at = terminated } in
    let running : Client = record c' { receiver_at = top; joinable = true; started = true } in
    if_cases (λ (q : Bool × Client). Inv q.1) c.connected (true, c)
      (if c.joinable then (false, broken) else (true, running)) (λ t. v)
      (λ t.
        if_cases (λ (q : Bool × Client). Inv q.1) c.joinable (false, broken) (true, running)
          (λ u. record {
            alive = λ n e. absurd (n refl);
            inside = λ x. absurd (ground (arith, x));
            kept = v.kept;
            gone = λ e. cc;
          })
          (λ u. record {
            alive = λ n e f. cc;
            inside = λ x. absurd (ground (arith, x));
            kept = λ e. refl;
            gone = λ e. cc;
          }))

leave-Inv : (c : Client) → c.owner_at ≡ returned → Inv c → Inv (leave c)
unfolding leave
leave-Inv c a v =
    let last : Client = record c { owner_at = if c.joinable then terminated else destroyed } in
    let back : Client = record c { owner_at = outside } in
    if_cases Inv c.in_destructor last back
      (λ t. record {
        alive = λ n e. v.alive (λ u. cc) e;
        inside = λ x. absurd (ground (arith, x));
        kept = v.kept;
        gone = λ e. ground (arith, v.kept);
      })
      (λ t. record {
        alive = λ n e. v.alive (λ u. cc) e;
        inside = λ x. absurd (ground (arith, x));
        kept = v.kept;
        gone = λ e. cc;
      })

send-Inv : (n : ℤ) (s : Bytes) (c : Client) → Inv c → Inv (send n s c).1
unfolding send
send-Inv n s c v =
    if_cases (λ (q : ℤ × Client). Inv q.1) (not c.connected || not c.has_socket) (negsuc 0, c)
      (n, record c { sent = c.sent ++ (s ∷ []) }) (λ t. v)
      (λ t. record { alive = v.alive; inside = v.inside; kept = v.kept; gone = v.gone })

after_recv_runs : (r : Received) → after_recv r ≢ exited
unfolding after_recv
after_recv_runs some_bytes e = cc
after_recv_runs no_bytes e = cc
after_recv_runs interrupted e = cc
after_recv_runs failed e = cc

Step-Inv : {c d : Client} → Step c d → Inv c → Inv d
Step-Inv {c} (connects o a i m) v = connect-Inv o c a v
Step-Inv {c} (sends n s a i m) v = send-Inv n s c v
Step-Inv {c} (destroys a i) v = record {
  alive = v.alive;
  inside = v.inside;
  kept = v.kept;
  gone = v.gone;
}
Step-Inv {c} (leaves a) v = leave-Inv c a v
Step-Inv {c} (disconnects_idle a m k) v = record {
  alive = λ n e. v.alive (λ t. cc) e;
  inside = λ x. absurd (ground (arith, x));
  kept = v.kept;
  gone = λ e. cc;
}
Step-Inv {c} (disconnects a m k) v = record {
  alive = λ n e. cc;
  inside = λ x. (refl, v.alive (λ t. cc) k);
  kept = v.kept;
  gone = λ e. cc;
}
Step-Inv {c} (closes_socket a) v = record {
  alive = λ n e. v.alive (λ t. cc) e;
  inside = λ x. v.inside (inl a);
  kept = v.kept;
  gone = λ e. cc;
}
Step-Inv {c} (joins a e) v = absurd ((v.inside (inr a)).1 e)
Step-Inv {c} (checks_top a m k) v = moves-Inv receiving c (λ e. cc) v
Step-Inv {c} (leaves_top a m k) v = moves-Inv leaving c (λ e. cc) v
Step-Inv {c} (receives a) v = moves-Inv behind_recv c (λ e. cc) v
Step-Inv {c} (goes_on r a m k) v = moves-Inv (after_recv r) c (after_recv_runs r) v
Step-Inv {c} (leaves_recv a m k) v = moves-Inv leaving c (λ e. cc) v
Step-Inv {c} (calls_back a) v = moves-Inv top c (λ e. cc) v
Step-Inv {c} (exits a m) v = record {
  alive = λ n e. cc;
  inside = λ x. absurd (ground (arith, v.inside x));
  kept = v.kept;
  gone = v.gone;
}

Reach-Inv : {c d : Client} → Reach c d → Inv c → Inv d
Reach-Inv here v = v
Reach-Inv (next r s) v = Step-Inv s (Reach-Inv r v)

initial-Inv : Inv initial
initial-Inv = record {
  alive = λ n e. absurd (ground (arith, e));
  inside = λ x. absurd (ground (arith, x));
  kept = λ e. absurd (ground (arith, e));
  gone = λ e. refl;
}

-- A client that has once started its receiver is never destroyed in the regular way, in no
-- interleaving and whatever the socket does: its destructor does not return, or ends the process.
pub started_not_destroyed :
    (c : Client) → Reach initial c → c.started ≡ true → c.owner_at ≢ destroyed
started_not_destroyed c r s d = absurd (ground (arith, (Reach-Inv r initial-Inv).gone, d, s))
