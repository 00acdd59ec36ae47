-- ===== src/UdpClient.antt =====
-- porting/impl/udp_client.cc: the two threads of a UDP client, the one that owns the object and the
-- receiver that `Connect` starts. The steps are what lies between two operations on `mutex_`, in
-- any interleaving. The socket is the environment: `recv` returns when it likes, with what it likes.
-- The owner's calls come one after another; `terminated` is the end of the process in
-- `std::terminate`, which a thread object that is still joinable causes when it is assigned to or
-- destroyed.
pub mod Deadlock
pub mod Lifetime
use xiaozhi_pc.Base.{
  Bool, true, false, not, ◌||◌, Option, none, some, List, [], ◌∷◌, ◌++◌, ◌≡◌, if◌then◌else◌,
}
use xiaozhi_pc.Base.Text.{Bytes}
use xiaozhi_pc.Base.Int.{ℤ, negsuc}

pub data Thread : Type 0 where
  owner receiver : Thread

-- Where the owner stands. In `joining` it holds the mutex and waits in `receiver_thread_.join()`, and
-- in `returned` it is behind `Disconnect`.
pub data OwnerAt : Type 0 where
  outside disconnecting joining returned destroyed terminated : OwnerAt

-- Where the receiver stands in `ReceiveLoop`; `exited` also stands for no thread at all.
pub data ReceiverAt : Type 0 where
  top receiving behind_recv in_callback leaving exited : ReceiverAt

-- What `recv` gave: bytes, none, or an error, which is EINTR or another.
pub data Received : Type 0 where
  some_bytes no_bytes interrupted failed : Received

pub record Client : Type 0 where
  pub connected : Bool
  pub has_socket : Bool
  -- who holds `mutex_`
  pub mutex : Option Thread
  pub owner_at : OwnerAt
  pub receiver_at : ReceiverAt
  -- `receiver_thread_.joinable()`
  pub joinable : Bool
  -- `Disconnect` is called by the destructor
  pub in_destructor : Bool
  -- whether a receiver was ever started, and the datagrams given to `sendto`, in order
  pub started : Bool
  pub sent : List Bytes

-- The members' initial values.
abbrev pub initial : Client
initial = record {
  connected = false;
  has_socket = false;
  mutex = none;
  owner_at = outside;
  receiver_at = exited;
  joinable = false;
  in_destructor = false;
  started = false;
  sent = [];
}

-- What the system makes of the arguments of `Connect`.
pub data Connecting : Type 0 where
  no_socket bad_address good_address : Connecting

-- `Connect`; `socket_` keeps the number of a socket that was closed for a bad address.
unfoldable pub connect : Connecting → Client → Bool × Client
connect o c = if c.connected then (true, c) else elim o [
  | no_socket ↦ (false, record c { has_socket = false })
  | bad_address ↦ (false, record c { has_socket = true })
  | good_address ↦
      let c' = record c { connected = true; has_socket = true } in
      if c.joinable
      then (false, record c' { owner_at = terminated })
      else (true, record c' { receiver_at = top; joinable = true; started = true })
]

-- `Send`; the number is what `sendto` returns.
unfoldable pub send : ℤ → Bytes → Client → ℤ × Client
send n s c =
    if not c.connected || not c.has_socket
    then (negsuc 0, c)
    else (n, record c { sent = c.sent ++ (s ∷ []) })

-- Behind `Disconnect`: back to the caller, or the destruction of the members.
unfoldable pub leave : Client → Client
leave c =
    if c.in_destructor
    then record c { owner_at = if c.joinable then terminated else destroyed }
    else record c { owner_at = outside }

-- Where the loop goes on with what `recv` gave.
unfoldable pub after_recv : Received → ReceiverAt
after_recv some_bytes = in_callback
after_recv no_bytes = top
after_recv interrupted = top
after_recv failed = leaving

pub data Step (c : Client) : Client → Type 0 where
  connects :
      (o : Connecting)
      → c.owner_at ≡ outside
      → c.in_destructor ≡ false
      → c.mutex ≡ none
      → Step c (connect o c).1
  sends :
      (n : ℤ) (s : Bytes)
      → c.owner_at ≡ outside
      → c.in_destructor ≡ false
      → c.mutex ≡ none
      → Step c (send n s c).1
  -- `~UdpClient`, which calls `Disconnect`
  destroys :
      c.owner_at ≡ outside → c.in_destructor ≡ false → Step c (record c { in_destructor = true })
  -- `Disconnect`: the lock, and the early return
  disconnects_idle :
      c.owner_at ≡ outside
      → c.mutex ≡ none
      → c.connected ≡ false
      → Step c (record c { owner_at = returned })
  disconnects :
      c.owner_at ≡ outside
      → c.mutex ≡ none
      → c.connected ≡ true
      → Step c (record c { mutex = some owner; connected = false; owner_at = disconnecting })
  closes_socket :
      c.owner_at ≡ disconnecting → Step c (record c { has_socket = false; owner_at = joining })
  -- `join` returns, and the lock is given back
  joins :
      c.owner_at ≡ joining
      → c.receiver_at ≡ exited
      → Step c (record c { mutex = none; owner_at = returned; joinable = false })
  leaves : c.owner_at ≡ returned → Step c (leave c)
  -- the two sections at the head of the loop: each leaves the loop when not connected
  checks_top :
      c.receiver_at ≡ top
      → c.mutex ≡ none
      → c.connected ≡ true
      → Step c (record c { receiver_at = receiving })
  leaves_top :
      c.receiver_at ≡ top
      → c.mutex ≡ none
      → c.connected ≡ false
      → Step c (record c { receiver_at = leaving })
  receives : c.receiver_at ≡ receiving → Step c (record c { receiver_at = behind_recv })
  goes_on :
      (r : Received)
      → c.receiver_at ≡ behind_recv
      → c.mutex ≡ none
      → c.connected ≡ true
      → Step c (record c { receiver_at = after_recv r })
  leaves_recv :
      c.receiver_at ≡ behind_recv
      → c.mutex ≡ none
      → c.connected ≡ false
      → Step c (record c { receiver_at = leaving })
  calls_back : c.receiver_at ≡ in_callback → Step c (record c { receiver_at = top })
  -- the last section of `ReceiveLoop`
  exits :
      c.receiver_at ≡ leaving
      → c.mutex ≡ none
      → Step c (record c { connected = false; receiver_at = exited })

pub data Reach (c : Client) : Client → Type 0 where
  here : Reach c c
  next : {d e : Client} → Reach c d → Step d e → Reach c e
