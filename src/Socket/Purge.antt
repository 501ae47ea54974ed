-- ===== src/Socket/Purge.antt =====
-- `purgePendingQueue`: the packets of a direction leave the pending queue and are freed.
pub mod Valid
pub mod Roots
use mac_osx_network_sockets.Base.{
  ℕ, Bool, true, false, Option, none, some, List, [], ◌∷◌, ◌++◌, if◌then◌else◌, sub32, ◌≡◌, refl,
  arith,
}
use mac_osx_network_sockets.Packet.{Mbuf, Pkt, DirectionType, is_meant, Effect, freem, wakeup_entry}
use mac_osx_network_sockets.Socket.{SocketObject, uncount_pkt, wakeup_waiting}

-- `my_mbuf_freem`
pub my_mbuf_freem : Option Mbuf → List Effect
my_mbuf_freem none = []
my_mbuf_freem (some m) = freem (some m) ∷ []

abbrev pub wake : Option ℕ → List Effect
wake none = []
wake (some w) = wakeup_entry w ∷ []

-- The counters of the object, and the effects, when a packet is purged.
pub purge_pkt : Pkt → SocketObject → SocketObject × List Effect
unfolding my_mbuf_freem
purge_pkt p s = (
  uncount_pkt p.data_inbound p.totalbytes (
      if p.need_to_be_reported
      then record s { packets_waiting_for_reporting = sub32 s.packets_waiting_for_reporting 1 }
      else s),
  wake p.wait_entry ++ (my_mbuf_freem p.mbuf ++ my_mbuf_freem p.control),
)

-- The `for` over the pending queue: the packets that stay, the object and the effects.
pub purge_queue : DirectionType → List Pkt → SocketObject → List Pkt × SocketObject × List Effect
unfolding purge_pkt
purge_queue type [] s = ([], s, [])
purge_queue type (p ∷ ps) s =
    let (t, es) = if is_meant type p.data_inbound then purge_pkt p s else (s, []) in
    let (kept, u, fs) = purge_queue type ps t in
    (if is_meant type p.data_inbound then kept else p ∷ kept, u, es ++ fs)

pub purge_pending_queue : DirectionType → SocketObject → SocketObject × List Effect
unfolding purge_queue
purge_pending_queue type s =
    let (kept, t, es) = purge_queue type s.pending_queue s in
    let u = record t { pending_queue = kept } in (u, es ++ wakeup_waiting u)
