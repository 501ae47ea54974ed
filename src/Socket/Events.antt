-- ===== src/Socket/Events.antt =====
-- `logSocketPreEvent` and `logSocketPostEvent`: the flags of the events that a socket has seen, before
-- and after the handler of the event.
use mac_osx_network_sockets.Base.{
  ℕ, ◌≡◌, Bool, true, false, not, ◌&&◌, ◌||◌, List, [], ◌∷◌, ◌==◌, if◌then◌else◌, arith,
}

-- `sflt_event_t`; `other_event` is any value without a case in the `switch`.
pub data SocketEvent : Type 0 where
  connecting connected disconnecting disconnected flush_read shutdown cantrecvmore cantsendmore
        closing bound other_event :
      SocketEvent

-- A name for each flag.
abbrev pub flag_of : SocketEvent → ℕ
flag_of connecting = 1
flag_of connected = 2
flag_of disconnecting = 3
flag_of disconnected = 4
flag_of flush_read = 5
flag_of shutdown = 6
flag_of cantrecvmore = 7
flag_of cantsendmore = 8
flag_of closing = 9
flag_of bound = 10
flag_of other_event = 0

-- The flags `f_sock_evt_pre_*` and `f_sock_evt_*`.
pub record EventFlags : Type 0 where
  pub pre : ℕ → Bool
  pub post : ℕ → Bool

abbrev set_flag : SocketEvent → (ℕ → Bool) → ℕ → Bool
set_flag e flags n = if flag_of e == n then true else flags n

pub log_socket_pre_event : SocketEvent → EventFlags → EventFlags
log_socket_pre_event bound f = record f { post = set_flag bound f.post }
log_socket_pre_event other_event f = f
log_socket_pre_event e f = record f { pre = set_flag e f.pre }

pub log_socket_post_event : SocketEvent → EventFlags → EventFlags
log_socket_post_event other_event f = f
log_socket_post_event e f = record f { post = set_flag e f.post }

-- A call of one of the two.
pub data LogCall : Type 0 where
  pre_event post_event : SocketEvent → LogCall

pub log_all : List LogCall → EventFlags → EventFlags
unfolding log_socket_pre_event log_socket_post_event
log_all [] f = f
log_all (pre_event e ∷ cs) f = log_all cs (log_socket_pre_event e f)
log_all (post_event e ∷ cs) f = log_all cs (log_socket_post_event e f)

-- Is there a call before, or after, the handler of the event with this flag?
pub has_pre : ℕ → List LogCall → Bool
has_pre n [] = false
has_pre n (pre_event e ∷ cs) = (flag_of e == n) || has_pre n cs
has_pre n (post_event e ∷ cs) = has_pre n cs

pub has_post : ℕ → List LogCall → Bool
has_post n [] = false
has_post n (pre_event e ∷ cs) = has_post n cs
has_post n (post_event e ∷ cs) = (flag_of e == n) || has_post n cs

log_pre-flags :
    (e : SocketEvent) (f : EventFlags) (n : ℕ)
    → (n == 0) ≡ false
    → ((log_socket_pre_event e f).pre n ≡ (f.pre n || (not (n == 10) && (flag_of e == n))))
      × ((log_socket_pre_event e f).post n ≡ (f.post n || ((n == 10) && (flag_of e == n))))
unfolding log_socket_pre_event
log_pre-flags connecting f n z = ground arith
log_pre-flags connected f n z = ground arith
log_pre-flags disconnecting f n z = ground arith
log_pre-flags disconnected f n z = ground arith
log_pre-flags flush_read f n z = ground arith
log_pre-flags shutdown f n z = ground arith
log_pre-flags cantrecvmore f n z = ground arith
log_pre-flags cantsendmore f n z = ground arith
log_pre-flags closing f n z = ground arith
log_pre-flags bound f n z = ground arith
log_pre-flags other_event f n z = ground arith

log_post-flags :
    (e : SocketEvent) (f : EventFlags) (n : ℕ)
    → (n == 0) ≡ false
    → ((log_socket_post_event e f).pre n ≡ f.pre n)
      × ((log_socket_post_event e f).post n ≡ (f.post n || (flag_of e == n)))
unfolding log_socket_post_event
log_post-flags connecting f n z = ground arith
log_post-flags connected f n z = ground arith
log_post-flags disconnecting f n z = ground arith
log_post-flags disconnected f n z = ground arith
log_post-flags flush_read f n z = ground arith
log_post-flags shutdown f n z = ground arith
log_post-flags cantrecvmore f n z = ground arith
log_post-flags cantsendmore f n z = ground arith
log_post-flags closing f n z = ground arith
log_post-flags bound f n z = ground arith
log_post-flags other_event f n z = ground arith

-- After any calls, the flag after the handler is set for exactly the events that were logged there
-- or had it set already, and the flag before the handler likewise, but for the event bound: logged
-- before its handler it sets the flag after the handler, and its own flag is never set.
log_all-flags :
    (cs : List LogCall) (f : EventFlags) (n : ℕ)
    → (n == 0) ≡ false
    → ((log_all cs f).pre n ≡ (f.pre n || (not (n == 10) && has_pre n cs)))
      × ((log_all cs f).post n ≡ (f.post n || (has_post n cs || ((n == 10) && has_pre n cs))))
unfolding log_all has_pre has_post
log_all-flags [] f n z = ground arith
log_all-flags (pre_event e ∷ cs) f n z =
    ground (arith, log_pre-flags e f n z, log_all-flags cs (log_socket_pre_event e f) n z)
log_all-flags (post_event e ∷ cs) f n z =
    ground (arith, log_post-flags e f n z, log_all-flags cs (log_socket_post_event e f) n z)
