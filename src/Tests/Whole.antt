-- ===== src/Tests/Whole.antt =====
-- The whole filter at a concrete state: two buffers, an idle socket object and one with a packet
-- that waits for its report.
use mac_osx_network_sockets.Base.{
  List, ◌≡◌, refl, true, false, none, some, [], ◌∷◌, ◌==◌, if◌then◌else◌, arith, inl, inr,
  Bool-cases,
}
use mac_osx_network_sockets.Packet.{Mbuf}
use mac_osx_network_sockets.Pool.{uint8_max}
use mac_osx_network_sockets.Tags.{MbufKpi}
use mac_osx_network_sockets.Filter.{Environment, Filter}
use mac_osx_network_sockets.Filter.Delivery.{deliver, deliver_object}
use mac_osx_network_sockets.Filter.Delivery.Valid.{AllValid}
use mac_osx_network_sockets.Filter.Delivery.Fuel.{deliver_enough}
use mac_osx_network_sockets.Filter.Delivery.Listed.{NoneStranded}
use mac_osx_network_sockets.Filter.Delivery.Order.{IsOrdered, deliver_object-IsOrdered}
use mac_osx_network_sockets.Filter.Data.{Arrival, flt_data}
use mac_osx_network_sockets.Filter.Data.Listed.{flt_data-NoneStranded}
use mac_osx_network_sockets.Filter.Service.{process_service_response}
use mac_osx_network_sockets.Filter.Service.Listed.{process_service_response-NoneStranded}
use mac_osx_network_sockets.Filter.Close.{shut_rdwr, unknown_how}
use mac_osx_network_sockets.Filter.Close.Valid.{Sound}
use mac_osx_network_sockets.System.{
  Event, arrives, responds, attaches, detaches, notifies, connects_out, injects, resumes, System,
  handle, run,
}
use mac_osx_network_sockets.Filter.Life.{Birth, flt_attach, with_socket, insert_in_sockets_list}
use mac_osx_network_sockets.Filter.Notify.{Names}
use mac_osx_network_sockets.Filter.Service.{
  get_socket_object_ref, find_socket, retain_found, release_object,
}
use mac_osx_network_sockets.Socket.Address.{zeros}
use mac_osx_network_sockets.Socket.Events.{shutdown, disconnecting}
use mac_osx_network_sockets.System.Sound.{HaveRoom, AlwaysRoom, always-HaveRoom, run-Sound}
use mac_osx_network_sockets.System.References.{none_taken, AreCounted, run-Counted}
use mac_osx_network_sockets.Filter.References.{Counted}
use mac_osx_network_sockets.Tests.Packets.{
  reported_in, socket_with, idle_socket, reported_in-IsValid, idle_socket-IsValid,
}
use mac_osx_network_sockets.Tests.Sockets.{allow}

-- The client takes every notification, and every injection succeeds.
abbrev pub quiet : Environment
quiet = record {
  now = 200;
  copydata = λ m off n. (0, []);
  user_client = λ es n. some 0;
  inject_error = λ p. 0;
  uninitialised = λ p. 0;
}

-- Socket object 1 has the waiting packet.
abbrev pub two_sockets : Filter
two_sockets = record {
  pool = record {
    buffers_count = 2;
    free_buffers = λ i. if i == 1 then 0 else uint8_max;
    free_buffers_head = 1;
    contents = λ _. [];
  };
  objects = λ o. if o == 1 then socket_with reported_in else idle_socket;
  sockets_list = 0 ∷ 1 ∷ [];
  sockets_list_to_report = 1 ∷ [];
  trace = [];
  next_sequence = 3;
}

-- No packet bears a tag, and each can be given one.
abbrev fresh_kpi : MbufKpi Mbuf
fresh_kpi = record {
  tag_find = λ m. (2, 0, 0);
  tag_allocate = λ m n. (0, m);
  write = λ m v. m;
  has_pkthdr = λ _. true;
  lengths = λ m. m.pkthdr_len ∷ [];
  gethdr = (0, record { address = 99; pkthdr_len = 0 });
  link_header = λ h m n. record { address = h.address; pkthdr_len = n };
}

abbrev outbound_packet : Arrival
outbound_packet = record {
  mbuf = record { address = 13; pkthdr_len = 4 };
  control = none;
  flags = 0;
  inbound = false;
  os_malloc = true;
  wait_entry = 78;
}

two_sockets-AllValid : AllValid two_sockets
two_sockets-AllValid o = elim (Bool-cases (o == 1)) [
  | inl e ↦ rw e reported_in-IsValid
  | inr e ↦ rw e idle_socket-IsValid
]

two_sockets-NoneStranded : NoneStranded two_sockets
two_sockets-NoneStranded = record {
  listed = record { distinct = (refl, tt); flagged = λ i. ground arith };
  reported = λ i n m. ground arith;
}

flt_data-NoneStranded_example :
    NoneStranded (flt_data quiet fresh_kpi outbound_packet 1 two_sockets).0
flt_data-NoneStranded_example =
    flt_data-NoneStranded quiet fresh_kpi outbound_packet 1 two_sockets two_sockets-AllValid
      two_sockets-NoneStranded

deliver_enough_example : deliver quiet 2 two_sockets ≡ deliver quiet 9 two_sockets
deliver_enough_example = deliver_enough quiet 2 9 two_sockets (omega arith) (omega arith)

deliver_object-IsOrdered_example :
    IsOrdered 200
      (two_sockets.objects 1).pending_queue
      ((deliver_object quiet 1 two_sockets).0.objects 1).pending_queue
      []
      (deliver_object quiet 1 two_sockets).0.trace
deliver_object-IsOrdered_example = deliver_object-IsOrdered quiet 1 two_sockets

process_service_response-NoneStranded_example :
    NoneStranded (process_service_response quiet (uint8_max ∷ []) (allow ∷ []) two_sockets)
process_service_response-NoneStranded_example =
    process_service_response-NoneStranded quiet (uint8_max ∷ []) (allow ∷ []) two_sockets
      two_sockets-AllValid two_sockets-NoneStranded

abbrev pub new_socket : Birth
new_socket = record { name = 5; allocated = true; initialised = true; receive_buffer_size = 65536 }

abbrev pub loopback : Names
loopback = record {
  local_name = (0, 16 ∷ 2 ∷ 31 ∷ 144 ∷ 127 ∷ 0 ∷ 0 ∷ 1 ∷ zeros 8);
  peer_name = (0, 16 ∷ 2 ∷ 195 ∷ 80 ∷ 127 ∷ 0 ∷ 0 ∷ 1 ∷ zeros 8);
}

-- A packet of socket object 1 gets a response; another socket connects; both directions of the first
-- are shut down, it is disconnected, and the call of `FltNotify` goes on after a round of the
-- injection thread; then it is detached.
abbrev later_life : List Event
later_life =
    responds quiet (uint8_max ∷ []) (allow ∷ [])
    ∷ connects_out 5 (16 ∷ 2 ∷ 0 ∷ 80 ∷ 10 ∷ 0 ∷ 0 ∷ 1 ∷ zeros 8)
    ∷ notifies quiet loopback shutdown shut_rdwr 1000
    ∷ notifies quiet loopback disconnecting unknown_how 1000
    ∷ injects quiet
    ∷ resumes 1
    ∷ detaches 1
    ∷ []

-- Before that, the other socket is attached, and the packet comes in.
abbrev whole_life : List Event
whole_life =
    attaches true new_socket 3000 2 ∷ arrives quiet fresh_kpi outbound_packet 1 ∷ later_life

-- No call waits.
abbrev two_at_rest : System
two_at_rest = record { filter = two_sockets; waiting = [] }

later_life-AlwaysRoom : AlwaysRoom later_life
later_life-AlwaysRoom = (
  λ s. tt,
  (λ s. refl, (λ s. (refl, refl), (λ s. (refl, refl), (λ s. tt, (λ s. tt, (λ s. tt, tt)))))),
)

-- The state before the packet comes in.
abbrev attached : System
attached = record { filter = (flt_attach true new_socket 3000 2 two_sockets).2; waiting = [] }

whole_life-HaveRoom : HaveRoom whole_life (some two_at_rest)
unfolding handle flt_attach with_socket insert_in_sockets_list get_socket_object_ref find_socket
    retain_found release_object
whole_life-HaveRoom = (
  (refl, refl),
  (
    omega arith,
    always-HaveRoom later_life later_life-AlwaysRoom
        (handle (arrives quiet fresh_kpi outbound_packet 1) attached),
  ),
)

run-Sound_example : (t : System) × (run whole_life two_at_rest ≡ some t) × Sound t.filter
run-Sound_example =
    run-Sound whole_life two_at_rest whole_life-HaveRoom
      (two_sockets-AllValid, two_sockets-NoneStranded)

two_sockets-Counted : Counted none_taken two_sockets
two_sockets-Counted = record { counted = λ i. ground arith }

run-Counted_example : (t : System) × (run whole_life two_at_rest ≡ some t) × AreCounted t
run-Counted_example =
    run-Counted whole_life two_at_rest whole_life-HaveRoom
      (two_sockets-AllValid, two_sockets-NoneStranded) two_sockets-Counted
