-- ===== src/Socket/Reinject.antt =====
-- `reinjectDeferredData`: the packets that the service has answered for, or that are too old, leave
-- the pending queue and are injected into the socket's stream or freed.
pub mod Order
pub mod Valid
pub mod Roots
use mac_osx_network_sockets.Base.{
  ℕ, ◌+◌, Bool, true, false, not, ◌&&◌, ◌||◌, List, [], ◌∷◌, ◌++◌, ◌==◌, if◌then◌else◌, add32,
}
use mac_osx_network_sockets.Packet.{
  Pkt, DirectionType, is_meant, is_deadline_timer_expired, Effect, inject_in, inject_out, freem,
}
use mac_osx_network_sockets.Socket.{is_disconnecting, SocketObject, uncount_pkt, wakeup_waiting}

-- The packets to inject, those that stay in the queue, and by how much `deadlinedPackets` grows.
pub record Selection : Type 0 where
  pub to_inject : List Pkt
  pub queue : List Pkt
  pub deadlined : ℕ

-- The `for` over the pending queue.
pub select : DirectionType → ℕ → List Pkt → Selection
select type now [] = record { to_inject = []; queue = []; deadlined = 0 }
select type now (p ∷ ps) =
    let rest = select type now ps in
    let (expired, p') = is_deadline_timer_expired now p in
    let stop : Selection = record { to_inject = []; queue = p' ∷ ps; deadlined = 0 } in
    if not (is_meant type p.data_inbound)
    then record rest { queue = p ∷ rest.queue }
    else if p.need_to_be_reported
    then record { to_inject = []; queue = p ∷ ps; deadlined = 0 }
    else if expired
    then record rest { to_inject = p' ∷ rest.to_inject; deadlined = rest.deadlined + 1 }
    else if p.response_received
    then record rest { to_inject = p' ∷ rest.to_inject }
    else stop

-- `sock_inject_data_in` or `sock_inject_data_out`
pub injection : Pkt → Effect
injection p =
    if p.data_inbound
    then inject_in p.mbuf p.control p.sflt_flags
    else inject_out p.mbuf p.control p.sflt_flags

-- Is the packet to be purged in place of its injection?
pub is_disabled : SocketObject → Pkt → Bool
is_disabled s p = is_disconnecting s || not p.allow_data

-- The object when the lock on the queue is given back.
abbrev pub leave_queue : SocketObject → Selection → SocketObject
leave_queue s c = record s {
  pending_queue = c.queue;
  deadlined_packets = add32 s.deadlined_packets c.deadlined;
}

module _ (inject_error uninitialised : Pkt → ℕ) where
  -- The body of the `while` over the local list. `inject_error p` is what the injection of `p`
  -- returns; on the branch that injects nothing `error` is read without having been set.
  pub inject_one : SocketObject → Pkt → List Effect
  unfolding injection is_disabled
  inject_one s p =
      let purged = is_disabled s p in
      let error : ℕ = if purged then uninitialised p else inject_error p in
      let free_mbufs = purged || (not (error == 0) && p.data_inbound) in
      (if purged then [] else injection p ∷ [])
      ++ (if free_mbufs then freem p.mbuf ∷ freem p.control ∷ [] else [])

  pub inject_all : SocketObject → List Pkt → SocketObject × List Effect
  unfolding inject_one
  inject_all s [] = (s, [])
  inject_all s (p ∷ ps) =
      let (t, es) = inject_all (uncount_pkt p.data_inbound p.totalbytes s) ps in
      (t, inject_one s p ++ es)

  -- What is done with the selected packets.
  pub inject_selection : SocketObject → Selection → SocketObject × List Effect
  inject_selection s c =
      let (t, es) = inject_all (leave_queue s c) c.to_inject in (t, es ++ wakeup_waiting t)

  pub reinject_deferred_data : DirectionType → ℕ → SocketObject → SocketObject × List Effect
  unfolding select inject_selection inject_all
  reinject_deferred_data type now s = inject_selection s (select type now s.pending_queue)
