-- ===== src/Packet.antt =====
-- The pending packets of NKE/NetworkKernelExtension/NkeSocketObject.h (`PendingPktQueueItem`), and
-- what a socket object asks of the kernel, as a trace of effects.
use mac_osx_network_sockets.Base.{
  ℕ, ◌+◌, ◌*◌, ◌%◌, Bool, true, not, Option, List, ltb, if◌then◌else◌,
}

-- An `mbuf_t`: the address of the chain, and `mbuf_pkthdr_len` of it.
pub record Mbuf : Type 0 where
  pub address : ℕ
  pub pkthdr_len : ℕ

-- `_PendingPktQueueItem`, its links left to the list that it stands in. A `WaitEntry` is named by a
-- number; the three debug bits of `flags` follow `sflt_flags`.
pub record Pkt : Type 0 where
  pub data_index : ℕ
  pub totalbytes : ℕ
  pub allocation_time : ℕ
  pub mbuf : Option Mbuf
  pub control : Option Mbuf
  pub allow_data : Bool
  pub data_inbound : Bool
  pub need_to_be_reported : Bool
  pub response_received : Bool
  pub deadline_timer_expired : Bool
  pub sflt_flags : ℕ
  pub error_while_allocating_buffers : Bool
  pub not_reported_entry_in_front : Bool
  pub wait_was_asserted : Bool
  pub wait_entry : Option ℕ

-- `60LL*1000000000LL`
abbrev pub deadline : ℕ
deadline = 60 * 1000000000

-- `isDeadlineTimerExpired` at `mach_absolute_time() = now`: the answer, and the packet, in which the
-- answer is kept. The sum is one of 64-bit words.
unfoldable pub is_deadline_timer_expired : ℕ → Pkt → Bool × Pkt
is_deadline_timer_expired now p = if p.deadline_timer_expired then (true, p) else (
  ltb ((p.allocation_time + deadline) % 18446744073709551616) now,
  record p {
    deadline_timer_expired = ltb ((p.allocation_time + deadline) % 18446744073709551616) now;
  },
)

-- `NkeSocketDataDirectionType`
pub data DirectionType : Type 0 where
  data_all data_inbound_only data_outbound_only : DirectionType

-- The filter that `reinjectDeferredData` and `purgePendingQueue` apply to each packet: is a packet
-- of this direction meant?
unfoldable pub is_meant : DirectionType → Bool → Bool
is_meant data_all inbound = true
is_meant data_inbound_only inbound = inbound
is_meant data_outbound_only inbound = not inbound

-- `NkeSocketFilterEvent`
pub data FilterEvent : Type 0 where
  unknown_event connected disconnected shutdown cantrecvmore cantsendmore closing bound data_in
        data_out :
      FilterEvent

-- `NkeSocketFilterNotification`: what `INIT_SOCKET_NOTIFICATION` and its callers fill in.
pub record Notification : Type 0 where
  pub event : FilterEvent
  pub socket : ℕ
  pub socket_sequence : ℕ
  pub for_disconnected_socket : Bool
  pub data_size : ℕ
  pub data_index : ℕ
  pub buffers : List ℕ
  -- `eventData.connected`: the family, and the bytes of the local and of the remote address
  pub addresses : Option (ℕ × List ℕ × List ℕ)

-- The calls that leave the extension, and the notifications that reach the client's queue.
pub data Effect : Type 0 where
  notified : Notification → Effect
  inject_in : Option Mbuf → Option Mbuf → ℕ → Effect
  inject_out : Option Mbuf → Option Mbuf → ℕ → Effect
  freem : Option Mbuf → Effect
  wakeup_entry : ℕ → Effect
  set_receive_buffer : ℕ → Effect
  wakeup_pending_in : Effect
  wakeup_pending_out : Effect
