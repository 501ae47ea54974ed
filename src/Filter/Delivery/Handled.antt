-- ===== src/Filter/Delivery/Handled.antt =====
-- `DeliverWaitingNotifications`: what becomes of one packet of the pending queue.
use mac_osx_network_sockets.Base.{
  ap, ℕ, ◌≡◌, ◌≢◌, ◌⊎◌, refl, sym, subst, Bool, true, false, none, List, [], ◌∷◌, ◌++◌, ◌==◌, arith,
  append-nil, Option-cases, inl, inr, Bool-cases,
}
use mac_osx_network_sockets.Packet.{
  Mbuf, Pkt, is_deadline_timer_expired, Effect, notified, inject_in, inject_out, freem,
  wakeup_entry, set_receive_buffer, wakeup_pending_in, wakeup_pending_out,
}
use mac_osx_network_sockets.Pool.{copy_data_to_buffers}
use mac_osx_network_sockets.Socket.{SocketObject}
use mac_osx_network_sockets.Filter.{Environment}
use mac_osx_network_sockets.Filter.Delivery.{
  Round, notify, report, settle, settle_effects, settled, after_report, deliver_pkt,
}

-- The data indices of the notifications in a trace.
pub reported : List Effect → List ℕ
reported [] = []
reported (notified n ∷ es) = n.data_index ∷ reported es
reported (inject_in m c f ∷ es) = reported es
reported (inject_out m c f ∷ es) = reported es
reported (freem m ∷ es) = reported es
reported (wakeup_entry w ∷ es) = reported es
reported (set_receive_buffer n ∷ es) = reported es
reported (wakeup_pending_in ∷ es) = reported es
reported (wakeup_pending_out ∷ es) = reported es

reported-append : (es fs : List Effect) → reported (es ++ fs) ≡ reported es ++ reported fs
unfolding reported
reported-append [] fs = refl
reported-append (notified n ∷ es) fs = ap (◌∷◌ n.data_index) (reported-append es fs)
reported-append (inject_in m c f ∷ es) fs = reported-append es fs
reported-append (inject_out m c f ∷ es) fs = reported-append es fs
reported-append (freem m ∷ es) fs = reported-append es fs
reported-append (wakeup_entry w ∷ es) fs = reported-append es fs
reported-append (set_receive_buffer n ∷ es) fs = reported-append es fs
reported-append (wakeup_pending_in ∷ es) fs = reported-append es fs
reported-append (wakeup_pending_out ∷ es) fs = reported-append es fs

-- The packet has its data, and its deadline is not over.
abbrev pub IsInTime : ℕ → Pkt → Type 0
IsInTime now p = (p.mbuf ≢ none) × ((is_deadline_timer_expired now p).0 ≡ false)

module _ (env : Environment) (s : SocketObject) where
  settled-reported : (p : Pkt) (r : Round) → reported (settled env s p r).trace ≡ reported r.trace
  unfolding reported settled settle_effects
  settled-reported p r = grind (arith, reported-append, append-nil)

  -- What a report adds to the trace, and its error.
  notify_lem :
      (p : Pkt) (m : Mbuf) (r : Round)
      → let r' = notify env s p m r in
        ((reported r'.trace ≡ reported r.trace) × (r'.error ≢ 0))
        ⊎ ((reported r'.trace ≡ reported r.trace ++ p.data_index ∷ []) × (r'.error ≡ 0))
  unfolding notify reported
  notify_lem p m r = grind (arith, reported-append)

  report_lem :
      (p : Pkt) (r : Round)
      → let r' = report env s p r in
        ((reported r'.trace ≡ reported r.trace) × (p.mbuf ≢ none → r'.error ≢ 0))
        ⊎ ((reported r'.trace ≡ reported r.trace ++ p.data_index ∷ []) × (r'.error ≡ 0))
  unfolding report
  report_lem p r = elim (Option-cases p.mbuf) [
    | inl e ↦ rw e (inl (refl, λ n. absurd (n refl)))
    | inr (m, e) ↦
        let c = copy_data_to_buffers (env.copydata m) m.pkthdr_len r.pool in
        let r' : Round = record r { pool = c.pool; error = c.error; buffers = c.indices } in
        elim (Bool-cases (c.error == 0)) [
          | inl ok ↦
              rw (e, ok) (elim (notify_lem p m r') [ inl (t, n) ↦ inl (t, λ _. n) | inr h ↦ inr h ])
          | inr failed ↦ rw (e, failed) (inl (refl, λ _. ground arith))
        ]
  ]

  -- What a packet of the queue adds to the indices in the trace.
  pub record Handled (p : Pkt) (r : Round) (x : Bool × Pkt × Round) : Type 0 where
    pub added : List ℕ
    pub traced : reported x.2.trace ≡ reported r.trace ++ added
    pub stopped :
        x.0 ≡ true
        → (added ≡ [])
          × (p.need_to_be_reported ≡ true)
          × (x.1.need_to_be_reported ≡ true)
          × (x.1.data_index ≡ p.data_index)
    pub went_on : x.0 ≡ false → x.1.need_to_be_reported ≡ false
    pub idle : p.need_to_be_reported ≡ false → added ≡ []
    pub at_most : (added ≡ []) ⊎ (added ≡ p.data_index ∷ [])
    pub in_time :
        x.0 ≡ false → p.need_to_be_reported ≡ true → IsInTime env.now p → added ≡ p.data_index ∷ []

  after_report-Handled :
      (p : Pkt) (r r' : Round)
      → p.need_to_be_reported ≡ true
      → ((reported r'.trace ≡ reported r.trace) × (p.mbuf ≢ none → r'.error ≢ 0))
        ⊎ ((reported r'.trace ≡ reported r.trace ++ p.data_index ∷ []) × (r'.error ≡ 0))
      → Handled p r (after_report env s p r')
  unfolding after_report settle is_deadline_timer_expired
  after_report-Handled p r r' n (inl (t, e)) = record {
    added = [];
    traced = ground (arith, settled-reported p r', append-nil (reported r.trace));
    stopped = λ h. ground arith;
    went_on = λ h. ground arith;
    idle = λ h. refl;
    at_most = inl refl;
    in_time = λ g m h. absurd (ground (arith, h, e));
  }
  after_report-Handled p r r' n (inr (t, e)) = record {
    added = p.data_index ∷ [];
    traced = ground (arith, settled-reported p r');
    stopped = λ h. absurd (ground arith);
    went_on = λ h. ground arith;
    idle = λ h. absurd (ground arith);
    at_most = inr refl;
    in_time = λ g m h. refl;
  }

  deliver_pkt-waits :
      (p : Pkt) (r : Round)
      → p.need_to_be_reported ≡ true
      → after_report env s p (report env s p r) ≡ deliver_pkt env s p r
  unfolding deliver_pkt
  deliver_pkt-waits p r n = ground arith

  deliver_pkt-skips :
      (p : Pkt) (r : Round) → p.need_to_be_reported ≡ false → (false, p, r) ≡ deliver_pkt env s p r
  unfolding deliver_pkt
  deliver_pkt-skips p r n = ground arith

  pub deliver_pkt-Handled : (p : Pkt) (r : Round) → Handled p r (deliver_pkt env s p r)
  deliver_pkt-Handled p r = elim (Bool-cases p.need_to_be_reported) [
    | inl n ↦
        subst (Handled p r) (deliver_pkt-waits p r n)
          (after_report-Handled p r (report env s p r) n (report_lem p r))
    | inr n ↦ subst (Handled p r) (deliver_pkt-skips p r n) (record {
      added = [];
      traced = sym (append-nil (reported r.trace));
      stopped = λ h. absurd (ground arith);
      went_on = λ h. n;
      idle = λ h. refl;
      at_most = inl refl;
      in_time = λ g m h. absurd (ground arith);
    })
  ]
