-- ===== src/Socket.antt =====
-- A socket object, `NkeSocketObject` of NKE/NetworkKernelExtension/NkeSocketObject.h and .cpp: its
-- fields, the allocation of a pending packet, and the operations on the pending queue. A function
-- returns the new object beside the effects that it causes, in order.
pub mod Counters
pub mod Events
pub mod Detach
pub mod Address
pub mod Allocation
pub mod Roots
pub mod Pending
pub mod Verify
pub mod Reinject
pub mod Purge
pub mod Response
use mac_osx_network_sockets.Base.{
  ℕ, ◌+◌, Bool, true, false, Option, none, some, List, [], ◌∷◌, ◌++◌, ◌==◌, if◌then◌else◌, add32,
  sub32,
}
use mac_osx_network_sockets.Socket.Address.{ObjectAddress}
use mac_osx_network_sockets.Packet.{
  Mbuf, Pkt, Effect, DirectionType, is_meant, wakeup_pending_in, wakeup_pending_out,
}
use mac_osx_network_sockets.Socket.Events.{EventFlags, flag_of, disconnecting}

-- `NkeCapturingMode`
pub data CapturingMode : Type 0 where
  capturing_invalid capturing_all capturing_nothing : CapturingMode

-- The fields of `NkeSocketObject`, but for the locks, the links of the lists, `gidtag` and those of a
-- `DBG` build. The event flags are in `Socket.Events`; `lock_count` is the detaching lock of
-- `Socket.Detach`. An `SInt32` is its bit pattern.
pub record SocketObject : Type 0 where
  pub socket : ℕ
  pub socket_sequence : ℕ
  pub pending_queue : List Pkt
  pub pending_data_next_index : ℕ
  pub deadlined_packets : ℕ
  pub total_pending_bytes_out : ℕ
  pub number_of_pending_out_packets : ℕ
  pub total_pending_bytes_in : ℕ
  pub number_of_pending_in_packets : ℕ
  pub packets_waiting_for_reporting : ℕ
  pub capturing_mode : CapturingMode
  pub event_flags : EventFlags
  pub disconnected : Bool
  pub lock_count : ℕ
  pub orig_receive_buffer_size : ℕ
  pub inserted_in_sockets_list_to_report : Bool
  pub references : ℕ
  pub inserted_in_sockets_list : Bool
  pub sa_family : ℕ
  -- the bytes of `localAddress` and `remoteAddress`
  pub local_address : ObjectAddress
  pub remote_address : ObjectAddress

-- `flags.f_sock_evt_disconnecting`
abbrev pub is_disconnecting : SocketObject → Bool
is_disconnecting s = s.event_flags.post (flag_of disconnecting)

abbrev pub pkthdr_len : Option Mbuf → ℕ
pkthdr_len none = 0
pkthdr_len (some m) = m.pkthdr_len

-- `OSIncrementAtomic` and `OSAddAtomic` on the counters of a direction.
pub count_pkt : Bool → ℕ → SocketObject → SocketObject
count_pkt true bytes s = record s {
  number_of_pending_in_packets = add32 s.number_of_pending_in_packets 1;
  total_pending_bytes_in = add32 s.total_pending_bytes_in bytes;
}
count_pkt false bytes s = record s {
  number_of_pending_out_packets = add32 s.number_of_pending_out_packets 1;
  total_pending_bytes_out = add32 s.total_pending_bytes_out bytes;
}

-- The decrements that `reinjectDeferredData` and `purgePendingQueue` make for a packet.
pub uncount_pkt : Bool → ℕ → SocketObject → SocketObject
uncount_pkt true bytes s = record s {
  number_of_pending_in_packets = sub32 s.number_of_pending_in_packets 1;
  total_pending_bytes_in = sub32 s.total_pending_bytes_in bytes;
}
uncount_pkt false bytes s = record s {
  number_of_pending_out_packets = sub32 s.number_of_pending_out_packets 1;
  total_pending_bytes_out = sub32 s.total_pending_bytes_out bytes;
}

-- `allocatePkt` at the time `now`, where `os_malloc` says whether `OSMalloc` succeeds. The packet is
-- zeroed by `bzero`; `totalbytes` is a `uint32_t` sum.
pub new_pkt : ℕ → Option Mbuf → Option Mbuf → ℕ → Bool → SocketObject → Pkt
new_pkt now mbuf control flags inbound s = record {
  data_index = s.pending_data_next_index;
  totalbytes = add32 (pkthdr_len mbuf) (pkthdr_len control);
  allocation_time = now;
  mbuf = mbuf;
  control = control;
  allow_data = false;
  data_inbound = inbound;
  need_to_be_reported = false;
  response_received = false;
  deadline_timer_expired = false;
  sflt_flags = flags;
  error_while_allocating_buffers = false;
  not_reported_entry_in_front = false;
  wait_was_asserted = false;
  wait_entry = none;
}

pub allocate_pkt :
    Bool → ℕ → Option Mbuf → Option Mbuf → ℕ → Bool → SocketObject → Option Pkt × SocketObject
unfolding new_pkt count_pkt
allocate_pkt os_malloc now none none flags inbound s = (none, s)
allocate_pkt os_malloc now mbuf control flags inbound s =
    if os_malloc
    then (
      some (new_pkt now mbuf control flags inbound s),
      record (count_pkt inbound (add32 (pkthdr_len mbuf) (pkthdr_len control)) s) {
        pending_data_next_index = add32 s.pending_data_next_index 1;
      },
    )
    else (none, s)

-- `wakeupWaitingFotInjectionCompletion`
pub wakeup_waiting : SocketObject → List Effect
wakeup_waiting s =
    (if s.number_of_pending_in_packets == 0 then wakeup_pending_in ∷ [] else [])
    ++ (if s.number_of_pending_out_packets == 0 then wakeup_pending_out ∷ [] else [])

-- The two halves of `checkForInjectionCompletion`: the sleep until a counter is zero, or the answer
-- `false` without a look at the counter. `none` means that the call sleeps.
wait_for_zero : Bool → Bool → ℕ → Option Bool → Option Bool
wait_for_zero false wait n rest = rest
wait_for_zero true true n rest = if n == 0 then rest else none
wait_for_zero true false n rest = some false

-- `checkForInjectionCompletion`, with no other thread running.
pub check_for_injection_completion : DirectionType → Bool → SocketObject → Option Bool
unfolding wait_for_zero is_meant
check_for_injection_completion type wait s =
    wait_for_zero (is_meant type false) wait s.number_of_pending_out_packets
      (wait_for_zero (is_meant type true) wait s.number_of_pending_in_packets (some true))
