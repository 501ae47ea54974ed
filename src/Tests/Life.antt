-- ===== src/Tests/Life.antt =====
-- The life of a socket at concrete inputs.
use mac_osx_network_sockets.Base.{
  ◌≡◌, refl, true, false, some, [], ◌∷◌, ◌++◌, arith, drop, contains, ◌==◌, if◌then◌else◌,
}
use mac_osx_network_sockets.Socket.Address.{
  ObjectAddress, no_address, zeroed, get_address, set_address, zeros, get_address-set_address,
}
use mac_osx_network_sockets.Filter.{Filter}
use mac_osx_network_sockets.Filter.Service.{get_socket_object_ref}
use mac_osx_network_sockets.Filter.Life.{flt_attach, flt_detach}
use mac_osx_network_sockets.Filter.Life.Ends.{AreListed, flt_attach_is_found, flt_detach_frees}
use mac_osx_network_sockets.Packet.{FilterEvent, notified}
use mac_osx_network_sockets.Socket.Events.{connected}
use mac_osx_network_sockets.Filter.Close.{unknown_how}
use mac_osx_network_sockets.Filter.Connect.{note_remote, note_local}
use mac_osx_network_sockets.Filter.Notify.{handle_event, init_socket_notification}
use mac_osx_network_sockets.Filter.Notify.Addresses.{
  Sockaddr, bytes_of, given, connected_bears_addresses,
}
use mac_osx_network_sockets.Tests.Whole.{quiet, loopback, two_sockets, new_socket}
use mac_osx_network_sockets.Tests.Packets.{reported_in, socket_with, idle_socket}

-- The address 127.0.0.1 with port 8080.
get_address-set_address_example :
    (g : ObjectAddress) × (set_address (16 ∷ 2 ∷ 31 ∷ 144 ∷ (127 ∷ 0 ∷ 0 ∷ 1 ∷ zeros 8)) no_address
      ≡ some g)
    × (get_address g zeroed
        ≡ 16 ∷ 2 ∷ 144 ∷ 31 ∷ ((127 ∷ 0 ∷ 0 ∷ 1 ∷ zeros 8) ++ drop 16 (zeros 28)))
get_address-set_address_example =
    get_address-set_address 16 2 31 144 (127 ∷ 0 ∷ 0 ∷ 1 ∷ zeros 8) no_address zeroed refl
      (omega arith) (omega arith)

-- A second object of the socket 1000.
flt_attach_is_found_example :
    let (error, cookie, g) = flt_attach true new_socket 1000 2 two_sockets in
    (error ≡ 0) × (cookie ≡ some 5) × ((get_socket_object_ref 1000 g).0 ≡ some 5)
flt_attach_is_found_example = flt_attach_is_found new_socket 1000 2 two_sockets refl

-- The two sockets, and no other object.
abbrev only_two : Filter
only_two = record two_sockets {
  objects = λ o.
      if o == 1
      then socket_with reported_in
      else (if o == 0
          then idle_socket
          else record idle_socket { inserted_in_sockets_list = false; references = 0 });
}

only_two-AreListed : AreListed only_two
only_two-AreListed = record {
  distinct = (refl, (refl, tt));
  flagged = λ i. ground arith;
  to_report = record { distinct = (refl, tt); flagged = λ i. ground arith };
}

flt_detach_frees_example :
    let g = flt_detach 1 only_two in
    let s = g.objects 1 in
    (contains g.sockets_list 1 ≡ false)
    × (contains g.sockets_list_to_report 1 ≡ false)
    × (s.inserted_in_sockets_list ≡ false)
    × (s.inserted_in_sockets_list_to_report ≡ false)
    × (s.pending_queue ≡ [])
    × (s.references ≡ 0)
flt_detach_frees_example =
    flt_detach_frees 1 only_two only_two-AreListed (record { counted = λ i. ground arith })

-- 127.0.0.1 with port 8080, and 10.0.0.1 with port 80.
abbrev here : Sockaddr
here = record { family = 2; high = 31; low = 144; rest = 127 ∷ 0 ∷ 0 ∷ 1 ∷ zeros 8 }

abbrev there : Sockaddr
there = record { family = 2; high = 0; low = 80; rest = 10 ∷ 0 ∷ 0 ∷ 1 ∷ zeros 8 }

connected_bears_addresses_example :
    (g h k : Filter) × (note_local 1 (bytes_of here) two_sockets ≡ some g)
    × (note_remote 1 (bytes_of there) g ≡ some h)
    × (handle_event quiet loopback connected unknown_how 1 h ≡ some k)
    × (k.trace
        ≡ notified
            (record (init_socket_notification (two_sockets.objects 1) FilterEvent.connected) {
              addresses = some ((two_sockets.objects 1).sa_family, given here, given there);
            })
          ∷ [])
connected_bears_addresses_example =
    connected_bears_addresses quiet loopback unknown_how 1 two_sockets here there
      (refl, omega arith) (refl, omega arith) (λ es n. refl)
