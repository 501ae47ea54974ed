-- ===== src/Socket/Reinject/Order.antt =====
-- What `reinjectDeferredData` sends on, and in which order.
use mac_osx_network_sockets.Base.{
  ℕ, ◌≡◌, refl, ap, Bool, true, false, not, ◌&&◌, ◌||◌, List, [], ◌∷◌, ◌++◌, arith, if◌then◌else◌,
  append-nil, ◌∙◌,
}
use mac_osx_network_sockets.Packet.{
  Pkt, DirectionType, data_all, is_meant, is_deadline_timer_expired, Effect, inject_in, inject_out,
  freem, wakeup_entry, set_receive_buffer, notified, wakeup_pending_in, wakeup_pending_out,
}
use mac_osx_network_sockets.Socket.{is_disconnecting, SocketObject, uncount_pkt, wakeup_waiting}
use mac_osx_network_sockets.Socket.Reinject.Valid.{inject_all-rest}
use mac_osx_network_sockets.Socket.Reinject.{
  leave_queue, select, injection, inject_one, inject_all, inject_selection, reinject_deferred_data,
}

-- The packet as `isDeadlineTimerExpired` leaves it.
abbrev pub timed : ℕ → Pkt → Pkt
timed now p = (is_deadline_timer_expired now p).1

-- A packet may leave the queue when it is reported and either answered or too old.
pub is_ready : ℕ → Pkt → Bool
is_ready now p =
    not p.need_to_be_reported && ((is_deadline_timer_expired now p).0 || p.response_received)

pub ready_prefix : ℕ → List Pkt → List Pkt
ready_prefix now [] = []
ready_prefix now (p ∷ ps) = if is_ready now p then timed now p ∷ ready_prefix now ps else []

-- The queue behind its ready prefix; the timer of the first packet that is not ready is read if the
-- packet is reported.
pub behind_ready : ℕ → List Pkt → List Pkt
behind_ready now [] = []
behind_ready now (p ∷ ps) =
    if is_ready now p
    then behind_ready now ps
    else (if p.need_to_be_reported then p ∷ ps else timed now p ∷ ps)

-- With `NkeSocketDataAll` the loop takes exactly the longest ready prefix of the queue.
pub select-all :
    (now : ℕ) (q : List Pkt)
    → ((select data_all now q).to_inject ≡ ready_prefix now q)
      × ((select data_all now q).queue ≡ behind_ready now q)
unfolding select ready_prefix behind_ready is_ready is_meant
select-all now [] = (refl, refl)
select-all now (p ∷ ps) = ground (arith, select-all now ps)

-- The calls of `sock_inject_data_in` and `sock_inject_data_out` in a trace.
pub injections : List Effect → List Effect
injections [] = []
injections (inject_in m c f ∷ es) = inject_in m c f ∷ injections es
injections (inject_out m c f ∷ es) = inject_out m c f ∷ injections es
injections (notified n ∷ es) = injections es
injections (freem m ∷ es) = injections es
injections (wakeup_entry w ∷ es) = injections es
injections (set_receive_buffer n ∷ es) = injections es
injections (wakeup_pending_in ∷ es) = injections es
injections (wakeup_pending_out ∷ es) = injections es

injections-append : (es fs : List Effect) → injections (es ++ fs) ≡ injections es ++ injections fs
unfolding injections
injections-append [] fs = refl
injections-append (inject_in m c f ∷ es) fs = ap (◌∷◌ (inject_in m c f)) (injections-append es fs)
injections-append (inject_out m c f ∷ es) fs = ap (◌∷◌ (inject_out m c f)) (injections-append es fs)
injections-append (notified n ∷ es) fs = injections-append es fs
injections-append (freem m ∷ es) fs = injections-append es fs
injections-append (wakeup_entry w ∷ es) fs = injections-append es fs
injections-append (set_receive_buffer n ∷ es) fs = injections-append es fs
injections-append (wakeup_pending_in ∷ es) fs = injections-append es fs
injections-append (wakeup_pending_out ∷ es) fs = injections-append es fs

injections-wakeup_waiting : (s : SocketObject) → injections (wakeup_waiting s) ≡ []
unfolding injections wakeup_waiting
injections-wakeup_waiting s = ground arith

-- The injections of the packets that are allowed, in the order of the list.
pub allowed_injections : Bool → List Pkt → List Effect
allowed_injections disconnecting [] = []
allowed_injections disconnecting (p ∷ ps) =
    if not disconnecting && p.allow_data
    then injection p ∷ allowed_injections disconnecting ps
    else allowed_injections disconnecting ps

uncount-disconnecting :
    (inbound : Bool) (bytes : ℕ) (s : SocketObject)
    → is_disconnecting (uncount_pkt inbound bytes s) ≡ is_disconnecting s
unfolding uncount_pkt
uncount-disconnecting true bytes s = refl
uncount-disconnecting false bytes s = refl

inject_one-uninitialised :
    (inject_error u v : Pkt → ℕ) (s : SocketObject) (p : Pkt)
    → inject_one inject_error u s p ≡ inject_one inject_error v s p
unfolding inject_one
inject_one-uninitialised inject_error u v s p = ground arith

inject_all-uninitialised :
    (inject_error u v : Pkt → ℕ) (s : SocketObject) (ps : List Pkt)
    → inject_all inject_error u s ps ≡ inject_all inject_error v s ps
unfolding inject_all
inject_all-uninitialised inject_error u v s [] = refl
inject_all-uninitialised inject_error u v s (p ∷ ps) = rw (
  inject_one-uninitialised inject_error u v s p,
  inject_all-uninitialised inject_error u v (uncount_pkt p.data_inbound p.totalbytes s) ps,
)

module _ (inject_error uninitialised : Pkt → ℕ) where
  injections-inject_one :
      (s : SocketObject) (p : Pkt)
      → injections (inject_one inject_error uninitialised s p)
        ≡ (if not (is_disconnecting s) && p.allow_data then injection p ∷ [] else [])
  unfolding injections inject_one
  injections-inject_one s p = ground arith

  injections-inject_all :
      (s : SocketObject) (ps : List Pkt)
      → injections (inject_all inject_error uninitialised s ps).1
        ≡ allowed_injections (is_disconnecting s) ps
  unfolding injections inject_all allowed_injections
  injections-inject_all s [] = refl
  injections-inject_all s (p ∷ ps) =
      rw
        (
          injections-append (inject_one inject_error uninitialised s p) _,
          injections-inject_one s p,
          injections-inject_all (uncount_pkt p.data_inbound p.totalbytes s) ps,
          uncount-disconnecting p.data_inbound p.totalbytes s,
        )
        (ground arith)

-- `reinjectDeferredData( NkeSocketDataAll )` sends on, in the order of the pending queue, the
-- packets of its longest ready prefix that the service has allowed, and no others; it sends nothing
-- if the socket is disconnecting. The rest of the queue keeps its order.
pub reinject_in_order :
    (inject_error uninitialised : Pkt → ℕ) (now : ℕ) (s : SocketObject)
    → let (t, es) = reinject_deferred_data inject_error uninitialised data_all now s in
      (injections es ≡ allowed_injections (is_disconnecting s) (ready_prefix now s.pending_queue))
      × (t.pending_queue ≡ behind_ready now s.pending_queue)
unfolding reinject_deferred_data inject_selection
reinject_in_order inject_error uninitialised now s =
    let c = select data_all now s.pending_queue in
    let (taken, left) = select-all now s.pending_queue in
    (
      injections-append _ (wakeup_waiting _)
          ∙ rw (injections-wakeup_waiting, append-nil, injections-inject_all, taken),
      (inject_all-rest inject_error uninitialised (leave_queue s c) c.to_inject).0 ∙ left,
    )

-- The variable `error` that `reinjectDeferredData` reads without having set it, where it purges a
-- packet, has no influence on the object or on the effects.
reinject_uninitialised :
    (inject_error u v : Pkt → ℕ) (type : DirectionType) (now : ℕ) (s : SocketObject)
    → reinject_deferred_data inject_error u type now s
      ≡ reinject_deferred_data inject_error v type now s
unfolding reinject_deferred_data inject_selection
reinject_uninitialised inject_error u v type now s = rw (inject_all-uninitialised inject_error u v)
