-- ===== src/Tests/Packets.antt =====
-- Packets and socket objects with their values.
use mac_osx_network_sockets.Base.{true, false, none, some, [], ◌∷◌, arith}
use mac_osx_network_sockets.Packet.{Pkt}
use mac_osx_network_sockets.Socket.Address.{no_address}
use mac_osx_network_sockets.Socket.{SocketObject, capturing_all}
use mac_osx_network_sockets.Socket.Counters.{IsValid}

-- An inbound packet of three bytes, reported.
abbrev pub reported_in : Pkt
reported_in = record {
  data_index = 5;
  totalbytes = 3;
  allocation_time = 100;
  mbuf = some (record { address = 11; pkthdr_len = 3 });
  control = none;
  allow_data = false;
  data_inbound = true;
  need_to_be_reported = false;
  response_received = false;
  deadline_timer_expired = false;
  sflt_flags = 0;
  error_while_allocating_buffers = false;
  not_reported_entry_in_front = false;
  wait_was_asserted = false;
  wait_entry = none;
}

-- The same with the permission of the service.
abbrev pub allowed_in : Pkt
allowed_in = record reported_in { allow_data = true; response_received = true }

-- An outbound packet of four bytes whose report is postponed; its thread sleeps.
abbrev pub waiting_out : Pkt
waiting_out = record reported_in {
  data_index = 6;
  totalbytes = 4;
  mbuf = some (record { address = 12; pkthdr_len = 4 });
  data_inbound = false;
  need_to_be_reported = true;
  error_while_allocating_buffers = true;
  wait_was_asserted = true;
  wait_entry = some 77;
}

-- A socket object with these packets pending: one in each direction, and the second unreported.
abbrev pub socket_with : Pkt → SocketObject
socket_with p = record {
  socket = 1000;
  socket_sequence = 1;
  pending_queue = p ∷ waiting_out ∷ [];
  pending_data_next_index = 7;
  deadlined_packets = 0;
  total_pending_bytes_out = 4;
  number_of_pending_out_packets = 1;
  total_pending_bytes_in = 3;
  number_of_pending_in_packets = 1;
  packets_waiting_for_reporting = 1;
  capturing_mode = capturing_all;
  event_flags = record { pre = λ n. false; post = λ n. false };
  disconnected = false;
  lock_count = 1;
  orig_receive_buffer_size = 65536;
  inserted_in_sockets_list_to_report = true;
  references = 2;
  inserted_in_sockets_list = true;
  sa_family = 2;
  local_address = no_address;
  remote_address = no_address;
}

abbrev pub idle_socket : SocketObject
idle_socket = record {
  socket = 2000;
  socket_sequence = 2;
  pending_queue = [];
  pending_data_next_index = 0;
  deadlined_packets = 0;
  total_pending_bytes_out = 0;
  number_of_pending_out_packets = 0;
  total_pending_bytes_in = 0;
  number_of_pending_in_packets = 0;
  packets_waiting_for_reporting = 0;
  capturing_mode = capturing_all;
  event_flags = record { pre = λ n. false; post = λ n. false };
  disconnected = false;
  lock_count = 1;
  orig_receive_buffer_size = 65536;
  inserted_in_sockets_list_to_report = false;
  references = 1;
  inserted_in_sockets_list = true;
  sa_family = 2;
  local_address = no_address;
  remote_address = no_address;
}

pub reported_in-IsValid : IsValid (socket_with reported_in)
reported_in-IsValid = ground arith

pub allowed_in-IsValid : IsValid (socket_with allowed_in)
allowed_in-IsValid = ground arith

pub idle_socket-IsValid : IsValid idle_socket
idle_socket-IsValid = ground arith
