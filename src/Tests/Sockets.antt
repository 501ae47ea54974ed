-- ===== src/Tests/Sockets.antt =====
-- The operations on a pending queue at concrete socket objects.
use mac_osx_network_sockets.Base.{arith, ℕ, ◌≡◌, refl, true, false, some, [], ◌∷◌}
use mac_osx_network_sockets.Packet.{Pkt, data_all}
use mac_osx_network_sockets.Socket.{check_for_injection_completion}
use mac_osx_network_sockets.Socket.Counters.{IsTailed}
use mac_osx_network_sockets.Socket.Verify.{verify_pending_packets_queue, verify_iff_IsTailed}
use mac_osx_network_sockets.Socket.Events.{EventFlags}
use mac_osx_network_sockets.Socket.Detach.{
  LockState, removes, attached, after, start_removal, is_removal_over, acquire_detaching_lock,
  removal_waits_for_holders,
}
use mac_osx_network_sockets.Socket.Reinject.{reinject_deferred_data}
use mac_osx_network_sockets.Socket.Reinject.Order.{
  injections, allowed_injections, ready_prefix, behind_ready, reinject_in_order,
}
use mac_osx_network_sockets.Socket.Purge.{purge_pending_queue}
use mac_osx_network_sockets.Socket.Purge.Valid.{purge_all_drains}
use mac_osx_network_sockets.Socket.Response.{Property, permission}
use mac_osx_network_sockets.Tests.Packets.{
  reported_in, allowed_in, waiting_out, socket_with, reported_in-IsValid,
}

abbrev no_error : Pkt → ℕ
no_error _ = 0

-- The service allows the packet with index 5.
abbrev pub allow : Property
allow = record {
  type = permission;
  data_index = 5;
  socket = 1000;
  socket_sequence = 1;
  allow_data = 1;
}

reinject_in_order_example :
    let (t, es) = reinject_deferred_data no_error no_error data_all 200 (socket_with allowed_in) in
    (injections es ≡ allowed_injections false (ready_prefix 200 (allowed_in ∷ waiting_out ∷ [])))
    × (t.pending_queue ≡ behind_ready 200 (allowed_in ∷ waiting_out ∷ []))
reinject_in_order_example = reinject_in_order no_error no_error 200 (socket_with allowed_in)

purge_all_drains_example :
    check_for_injection_completion data_all true
      (purge_pending_queue data_all (socket_with reported_in)).0
    ≡ some true
purge_all_drains_example = purge_all_drains (socket_with reported_in) reported_in-IsValid

-- The event bound before its handler, from cleared flags.
abbrev cleared : EventFlags
cleared = record { pre = λ _. false; post = λ _. false }

-- The removal has started and no thread holds the lock.
abbrev removed_lock : LockState
removed_lock = record { count = start_removal 1; holders = 0; removed = true }

removal_waits_for_holders_example :
    (is_removal_over (start_removal 1) ≡ true)
    × ((acquire_detaching_lock (start_removal 1)).0 ≡ false)
removal_waits_for_holders_example =
    removal_waits_for_holders removed_lock (after attached (removes _ refl)) (omega arith)

verify_iff_IsTailed_example :
    (verify_pending_packets_queue (socket_with reported_in) ≡ true
      → IsTailed (socket_with reported_in).pending_queue)
    × (IsTailed (socket_with reported_in).pending_queue
        → verify_pending_packets_queue (socket_with reported_in) ≡ true)
verify_iff_IsTailed_example = verify_iff_IsTailed (socket_with reported_in)
