-- ===== src/Filter/Delivery/Order.antt =====
-- `DeliverWaitingNotifications`: the order in which the packets of a socket object are reported.
use mac_osx_network_sockets.Base.{
  ap, ℕ, ◌≡◌, ◌⊎◌, refl, sym, subst, ==-self, true, false, List, [], ◌∷◌, ◌++◌, arith,
  if◌then◌else◌, append-nil, append_assoc, inl, inr, Bool-cases,
}
use mathlib.Core.List.{Sublistᴰ}
use mac_osx_network_sockets.Packet.{Pkt, Effect}
use mac_osx_network_sockets.Socket.{SocketObject}
use mac_osx_network_sockets.Filter.{Environment, Filter}
use mac_osx_network_sockets.Filter.Delivery.{
  Round, deliver_pkt, deliver_queue, first_round, deliver_object,
}
use mac_osx_network_sockets.Filter.Delivery.Handled.{reported, IsInTime, deliver_pkt-Handled}

-- The data indices of the packets that wait for their report.
abbrev waiting : List Pkt → List ℕ
waiting [] = []
waiting (p ∷ ps) = if p.need_to_be_reported then p.data_index ∷ waiting ps else waiting ps

-- Each packet that waits is in time.
abbrev AllInTime : ℕ → List Pkt → Type 0
AllInTime now [] = Unit
AllInTime now (p ∷ ps) = (p.need_to_be_reported ≡ true → IsInTime now p) × AllInTime now ps

-- The reports of a pass over a queue.
pub record IsOrdered (now : ℕ) (q q' : List Pkt) (es es' : List Effect) : Type 0 where
  pub sent : List ℕ
  pub done : List ℕ
  pub traced : reported es' ≡ reported es ++ sent
  pub split : waiting q ≡ done ++ waiting q'
  pub in_order : Sublistᴰ sent done
  pub complete : (sent ≡ done) ⊎ (¬ AllInTime now q)

module _ (env : Environment) (s : SocketObject) where
  -- The packet at which the loop stops, and all behind it, still wait.
  stop-IsOrdered :
      (p : Pkt) (ps : List Pkt) (r : Round)
      → (deliver_pkt env s p r).0 ≡ true
      → let (stop, p', r') = deliver_pkt env s p r in
        IsOrdered env.now (p ∷ ps) (p' ∷ ps) r.trace r'.trace
  stop-IsOrdered p ps r e =
      let h = deliver_pkt-Handled env s p r in
      let (none_added, w, w', same) = h.stopped e in
      record {
        sent = [];
        done = [];
        traced = ground (arith, h.traced);
        split = ground arith;
        in_order = Sublistᴰ.slnil;
        complete = inl refl;
      }

  next-IsOrdered :
      (p : Pkt) (ps qs : List Pkt) (r : Round) (es : List Effect)
      → (deliver_pkt env s p r).0 ≡ false
      → let (stop, p', r') = deliver_pkt env s p r in
        IsOrdered env.now ps qs r'.trace es → IsOrdered env.now (p ∷ ps) (p' ∷ qs) r.trace es
  next-IsOrdered p ps qs r es e o =
      let h = deliver_pkt-Handled env s p r in
      let w' = h.went_on e in
      let total : reported es ≡ reported r.trace ++ (h.added ++ o.sent) =
        ground (arith, o.traced, h.traced, append_assoc (reported r.trace) h.added o.sent) in
      elim (Bool-cases p.need_to_be_reported) [
        | inl n ↦ elim h.at_most [
          | inl empty ↦ record {
            sent = o.sent;
            done = p.data_index ∷ o.done;
            traced = subst (λ z. reported es ≡ reported r.trace ++ (z ++ o.sent)) empty total;
            split = ground (arith, o.split);
            in_order = Sublistᴰ.cons o.in_order;
            complete = inr (λ a. (let t = h.in_time e n (a.0 n) in absurd (ground arith)));
          }
          | inr one ↦ record {
            sent = p.data_index ∷ o.sent;
            done = p.data_index ∷ o.done;
            traced = subst (λ z. reported es ≡ reported r.trace ++ (z ++ o.sent)) one total;
            split = ground (arith, o.split);
            in_order = Sublistᴰ.cons-cons refl o.in_order;
            complete = elim o.complete [
              | inl k ↦ inl (ap (◌∷◌ p.data_index) k)
              | inr k ↦ inr (λ a. k a.1)
            ];
          }
        ]
        | inr n ↦
            let empty = h.idle n in
            record {
              sent = o.sent;
              done = o.done;
              traced = subst (λ z. reported es ≡ reported r.trace ++ (z ++ o.sent)) empty total;
              split = ground (arith, o.split);
              in_order = o.in_order;
              complete = elim o.complete [ inl k ↦ inl k | inr k ↦ inr (λ a. k a.1) ];
            }
      ]

  deliver_queue-IsOrdered :
      (q : List Pkt) (r : Round)
      → let (q', r') = deliver_queue env s q r in IsOrdered env.now q q' r.trace r'.trace
  unfolding deliver_queue
  deliver_queue-IsOrdered [] r = record {
    sent = [];
    done = [];
    traced = sym (append-nil (reported r.trace));
    split = refl;
    in_order = Sublistᴰ.slnil;
    complete = inl refl;
  }
  deliver_queue-IsOrdered (p ∷ ps) r = elim (Bool-cases (deliver_pkt env s p r).0) [
    | inl e ↦ rw e (stop-IsOrdered p ps r e)
    | inr e ↦
        let (stop, p', r') = deliver_pkt env s p r in
        rw e (next-IsOrdered p ps _ r _ e (deliver_queue-IsOrdered ps r'))
  ]

-- In a round of `DeliverWaitingNotifications`, for a socket object, the packets that wait for their
-- report are taken from the front of the queue in the order in which they came, and those behind
-- still wait afterwards. The packets that the client is told of are among those taken, in the same
-- order and each once. They are all of those taken, unless the deadline of a packet that waits is
-- over or its data is missing.
pub deliver_object-IsOrdered :
    (env : Environment) (o : ℕ) (f : Filter)
    → let g = (deliver_object env o f).0 in
      IsOrdered env.now (f.objects o).pending_queue (g.objects o).pending_queue f.trace g.trace
unfolding deliver_object
deliver_object-IsOrdered env o f =
    rw (==-self o) (deliver_queue-IsOrdered env (f.objects o) _ (first_round f (f.objects o)))
