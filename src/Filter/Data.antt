-- ===== src/Filter/Data.antt =====
-- `FltDataIn`, `FltDataOut` and `FltData`: a packet that comes through a socket is put in the pending
-- queue and reported to the client, or its report is postponed.
pub mod Enqueue
pub mod Valid
pub mod References
pub mod Listed
use mac_osx_network_sockets.Base.{
  ℕ, zero, suc, ◌+◌, Bool, true, false, not, ◌&&◌, ◌||◌, Option, none, some, List, [], ◌∷◌, ◌++◌,
  ◌==◌, if◌then◌else◌, update, add32,
}
use mac_osx_network_sockets.Packet.{
  Mbuf, Pkt, data_all, Notification, Effect, notified, set_receive_buffer,
}
use mac_osx_network_sockets.Pool.{Pool, CopyState, enomem, copy_data_to_buffers}
use mac_osx_network_sockets.Tags.{
  MbufKpi, ProcFlags, inbound_done, outbound_done, check_tag, set_tag,
}
use mac_osx_network_sockets.Socket.{
  SocketObject, CapturingMode, capturing_nothing, allocate_pkt, check_for_injection_completion,
}
use mac_osx_network_sockets.Filter.{Environment, Filter, enoent, data_notification}
use mac_osx_network_sockets.Filter.Delivery.{release_data_buffers_and_deliver}

-- The arguments of `FltData`, whether `OSMalloc` will succeed, and the name of the `WaitEntry` on the
-- caller's stack.
pub record Arrival : Type 0 where
  pub mbuf : Mbuf
  pub control : Option Mbuf
  pub flags : ℕ
  pub inbound : Bool
  pub os_malloc : Bool
  pub wait_entry : ℕ

-- How `FltData` ends: with an error code, with 0 when all pending packets have been injected, or
-- with `EJUSTRETURN` when the wait entry is satisfied.
pub data Verdict : Type 0 where
  returns : ℕ → Verdict
  returns_when_injected : Verdict
  returns_when_reported : ℕ → Verdict

-- `EJUSTRETURN`, -2 as a 32-bit word.
abbrev pub ejustreturn : ℕ
ejustreturn = 4294967294

abbrev pub is_nothing : CapturingMode → Bool
is_nothing m = elim m [ capturing_nothing ↦ true | _ ↦ false ]

abbrev pub done_flag : Bool → ProcFlags
done_flag inbound = if inbound then inbound_done else outbound_done

-- Is the report of a packet postponed, after its copy has ended with this error?
pub is_postponed : ℕ → SocketObject → Bool
is_postponed error s = not (error == 0) || not (s.packets_waiting_for_reporting == 0)

-- The packet as it stands in the queue when the lock is given back.
pub queued_pkt : ℕ → Arrival → SocketObject → Pkt → Pkt
unfolding is_postponed
queued_pkt error a s p =
    let q = record p {
      error_while_allocating_buffers = not (error == 0);
      not_reported_entry_in_front = not (s.packets_waiting_for_reporting == 0);
      wait_was_asserted = is_postponed error s && not a.inbound;
    } in
    if is_postponed error s
    then record q {
      need_to_be_reported = true;
      wait_entry = if a.inbound then none else some a.wait_entry;
    }
    else q

-- The object when the lock is given back. The first packet that waits puts the object in
-- `SocketsListToReport`.
pub enqueue : ℕ → Arrival → Pkt → SocketObject → SocketObject
unfolding queued_pkt is_postponed
enqueue error a p s =
    let t = record s { pending_queue = s.pending_queue ++ queued_pkt error a s p ∷ [] } in
    let u = record t { packets_waiting_for_reporting = add32 s.packets_waiting_for_reporting 1 } in
    if is_postponed error s
    then (if (s.packets_waiting_for_reporting == 0) && not s.inserted_in_sockets_list_to_report
        then record u {
          references = add32 s.references 1;
          inserted_in_sockets_list_to_report = true;
        }
        else u)
    else t

-- The effect under the lock: the receive window of a postponed inbound packet's socket is closed, if
-- the socket is not being detached.
enqueue_effects : ℕ → Arrival → SocketObject → List Effect
unfolding is_postponed
enqueue_effects error a s =
    if is_postponed error s && (a.inbound && not (s.lock_count == 0))
    then set_receive_buffer 1 ∷ []
    else []

-- The branches for `NkeCapturingModeNothing`, at the result of `checkForInjectionCompletion`; `next`
-- is what the rest of the function does.
pub pass_inbound : Filter → Filter × Verdict → Option Bool → Filter × Verdict
pass_inbound f next (some true) = (f, returns 0)
pass_inbound f next r = next

pub pass_outbound : Filter → Option Bool → Filter × Verdict
pass_outbound f none = (f, returns_when_injected)
pass_outbound f (some b) = (f, returns 0)

module _ (env : Environment) where
  -- The locked part, for the socket `o`.
  pub enqueue_in_filter : ℕ → Arrival → Pkt → ℕ → Filter → Filter
  unfolding enqueue enqueue_effects is_postponed
  enqueue_in_filter error a p o f =
      let s = f.objects o in
      record f {
        objects = update f.objects o (enqueue error a p s);
        sockets_list_to_report =
            if is_postponed error s
              && ((s.packets_waiting_for_reporting == 0)
                  && not s.inserted_in_sockets_list_to_report)
            then f.sockets_list_to_report ++ o ∷ []
            else f.sockets_list_to_report;
        trace = f.trace ++ enqueue_effects error a s;
      }

  -- The `sendNotification` block and the release of buffers after a failure of it.
  pub send_notification : Notification → Filter → Filter
  send_notification n f = elim (env.user_client f.trace n) [
    | some zero ↦ record f { trace = f.trace ++ notified n ∷ [] }
    | _ ↦ release_data_buffers_and_deliver env n.buffers f
  ]

  -- From the copy of the data to the end, for a packet that has been allocated; `m` is the chain
  -- after `setTag`.
  pub pend : Mbuf → Arrival → Pkt → ℕ → Filter → Filter × Verdict
  unfolding enqueue_in_filter send_notification is_postponed data_notification
  pend m a p o f =
      let s = f.objects o in
      let c = copy_data_to_buffers (env.copydata m) m.pkthdr_len f.pool in
      let g = enqueue_in_filter c.error a p o (record f { pool = c.pool }) in
      if is_postponed c.error s
      then (
        release_data_buffers_and_deliver env c.indices g,
        if a.inbound then returns ejustreturn else returns_when_reported a.wait_entry,
      )
      else (
        send_notification (data_notification s a.inbound m.pkthdr_len p.data_index c.indices) g,
        returns ejustreturn,
      )

  -- What follows `allocatePkt`, at its result.
  pub pend_allocated : Mbuf → Arrival → ℕ → Filter → Option Pkt × SocketObject → Filter × Verdict
  unfolding pend
  pend_allocated m a o f (none, s) = (f, returns enomem)
  pend_allocated m a o f (some p, s) = pend m a p o (record f { objects = update f.objects o s })

  -- From `setTag` on.
  pub tag_and_pend : MbufKpi Mbuf → Arrival → ℕ → Filter → Filter × Verdict
  unfolding pend_allocated
  tag_and_pend kpi a o f =
      let (error, m) = set_tag kpi a.mbuf (done_flag a.inbound) in
      if error == 0
      then pend_allocated m a o f
          (allocate_pkt a.os_malloc env.now (some m) a.control a.flags a.inbound (f.objects o))
      else (f, returns enomem)

  -- From `checkTag` on.
  pub check_and_pend : MbufKpi Mbuf → Arrival → ℕ → Filter → Filter × Verdict
  unfolding tag_and_pend
  check_and_pend kpi a o f =
      if check_tag kpi a.mbuf (done_flag a.inbound) then (f, returns 0) else tag_and_pend kpi a o f

  pub flt_data : MbufKpi Mbuf → Arrival → ℕ → Filter → Filter × Verdict
  unfolding check_and_pend pass_inbound pass_outbound
  flt_data kpi a o f =
      if is_nothing (f.objects o).capturing_mode
      then (if a.inbound
          then pass_inbound f (check_and_pend kpi a o f)
              (check_for_injection_completion data_all false (f.objects o))
          else pass_outbound f (check_for_injection_completion data_all true (f.objects o)))
      else check_and_pend kpi a o f
