-- ===== src/Filter.antt =====
-- The state of the whole filter, and what it asks of the kernel and of the user client.
pub mod References
pub mod Close
pub mod Life
pub mod Notify
pub mod Connect
pub mod Injection
pub mod Data
pub mod Delivery
pub mod Service
use mac_osx_network_sockets.Base.{ℕ, Bool, true, Option, none, List, [], ◌∷◌, if◌then◌else◌}
use mac_osx_network_sockets.Packet.{Mbuf, Pkt, FilterEvent, data_in, data_out, Notification, Effect}
use mac_osx_network_sockets.Pool.{Pool, CopyData, uint8_max}
use mac_osx_network_sockets.Socket.{SocketObject}

-- One call of the filter runs at a time; what other threads do meanwhile is not in this model.
pub record Environment : Type 0 where
  -- `mach_absolute_time()` during the call
  pub now : ℕ
  pub copydata : Mbuf → CopyData
  -- What comes of a notification after these effects: `none` if `getUserClient()` is NULL, and
  -- otherwise the result of `socketFilterNotification`.
  pub user_client : List Effect → Notification → Option ℕ
  -- what `sock_inject_data_in` or `sock_inject_data_out` returns for a packet
  pub inject_error : Pkt → ℕ
  -- a variable that is read without having been set
  pub uninitialised : Pkt → ℕ

-- Socket objects are named by numbers, in `objects`; `SocketsList` and `SocketsListToReport` are
-- lists of such names; `trace` are the effects so far.
pub record Filter : Type 0 where
  pub pool : Pool
  pub objects : ℕ → SocketObject
  pub sockets_list : List ℕ
  pub sockets_list_to_report : List ℕ
  pub trace : List Effect
  -- `gSocketSequence`
  pub next_sequence : ℕ

abbrev pub enoent : ℕ
enoent = 2

-- `INIT_SOCKET_NOTIFICATION` for a data event, with the fields that its callers set next.
unfoldable pub data_notification : SocketObject → Bool → ℕ → ℕ → List ℕ → Notification
data_notification s inbound size index buffers = record {
  event = if inbound then data_in else data_out;
  socket = s.socket;
  socket_sequence = s.socket_sequence;
  for_disconnected_socket = s.disconnected;
  data_size = size;
  data_index = index;
  buffers = buffers;
  addresses = none;
}
