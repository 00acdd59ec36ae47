-- ===== src/UdpClient/Deadlock.antt =====
-- porting/impl/udp_client.cc: `Disconnect` of a client whose receiver runs.
use xiaozhi_pc.Base.{some, ◌⊎◌, inl, inr, ◌≡◌, ◌≢◌, refl, arith}
use xiaozhi_pc.UdpClient.{
  owner, disconnecting, joining, returned, exited, Client, Step, connects, sends, destroys, leaves,
  disconnects_idle, disconnects, closes_socket, joins, checks_top, leaves_top, receives, goes_on,
  leaves_recv, calls_back, exits, Reach, here, next,
}

-- The owner is inside `Disconnect` with the mutex, and the receiver has not come to its end.
record IsStuck (c : Client) : Type 0 where
  held : c.mutex ≡ some owner
  inside : (c.owner_at ≡ disconnecting) ⊎ (c.owner_at ≡ joining)
  alive : c.receiver_at ≢ exited

Step-IsStuck : {c d : Client} → Step c d → IsStuck c → IsStuck d
Step-IsStuck (connects o a i m) v = cc (v.held)
Step-IsStuck (sends n s a i m) v = cc (v.held)
Step-IsStuck (destroys a i) v = absurd (ground (arith, v.inside))
Step-IsStuck (leaves a) v = absurd (ground (arith, v.inside))
Step-IsStuck (disconnects_idle a m k) v = cc (v.held)
Step-IsStuck (disconnects a m k) v = cc (v.held)
Step-IsStuck (closes_socket a) v = record { held = v.held; inside = inr refl; alive = v.alive }
Step-IsStuck (joins a e) v = absurd (v.alive e)
Step-IsStuck (checks_top a m k) v = cc (v.held)
Step-IsStuck (leaves_top a m k) v = cc (v.held)
Step-IsStuck (receives a) v = record { held = v.held; inside = v.inside; alive = λ e. cc }
Step-IsStuck (goes_on r a m k) v = cc (v.held)
Step-IsStuck (leaves_recv a m k) v = cc (v.held)
Step-IsStuck (calls_back a) v = record { held = v.held; inside = v.inside; alive = λ e. cc }
Step-IsStuck (exits a m) v = cc (v.held)

Reach-IsStuck : {c d : Client} → Reach c d → IsStuck c → IsStuck d
Reach-IsStuck here v = v
Reach-IsStuck (next r s) v = Step-IsStuck s (Reach-IsStuck r v)

-- Once the owner is inside `Disconnect` with the mutex while the receiver runs, it never returns,
-- in no interleaving and whatever the socket does: it waits for the receiver's end with the mutex
-- held that the receiver needs to come to its end.
pub disconnect_never_returns :
    (c d : Client)
    → c.mutex ≡ some owner
    → c.owner_at ≡ disconnecting
    → c.receiver_at ≢ exited
    → Reach c d
    → d.owner_at ≢ returned
disconnect_never_returns c d m a e r back = absurd (impossible (Reach-IsStuck r start))
  where
    start : IsStuck c
    start = record { held = m; inside = inl a; alive = e }

    impossible : IsStuck d → ⊥
    impossible v = ground (arith, v.inside)
