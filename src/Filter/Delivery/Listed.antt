-- ===== src/Filter/Delivery/Listed.antt =====
-- `DeliverWaitingNotifications` and the list `SocketsListToReport`: which socket objects with packets
-- that wait for their report stand in it.
use mac_osx_network_sockets.Base.{
  ap, ℕ, zero, suc, ◌≡◌, refl, sym, Bool, true, false, List, [], ◌∷◌, ◌++◌, ◌==◌, ◌∙◌, arith,
  if◌then◌else◌, update, contains, contains-append, Distinct, List-cases, inl, inr, Bool-cases,
}
use mac_osx_network_sockets.Socket.{SocketObject}
use mac_osx_network_sockets.Socket.Counters.{unreported_count}
use mac_osx_network_sockets.Pool.{release_data_buffers}
use mac_osx_network_sockets.Filter.{Environment, Filter}
use mac_osx_network_sockets.Filter.Delivery.{
  Round, first_round, deliver_object, put_back, released, finish_round, deliver,
  deliver_waiting_notifications, release_data_buffers_and_deliver,
}
use mac_osx_network_sockets.Filter.Delivery.Fuel.{deliver_queue-reinsert}

-- `insertedInSocketsListToReport` says which objects stand in the list, each once.
pub record IsListed (f : Filter) : Type 0 where
  pub distinct : Distinct f.sockets_list_to_report
  pub flagged :
      (i : ℕ)
      → (f.objects i).inserted_in_sockets_list_to_report ≡ contains f.sockets_list_to_report i

-- Outside the list, no object but those of `x` has a packet that waits for its report.
abbrev pub ReportedBut : (ℕ → Bool) → Filter → Type 0
ReportedBut x f =
    (i : ℕ)
    → x i ≡ false
    → (f.objects i).inserted_in_sockets_list_to_report ≡ false
    → unreported_count (f.objects i).pending_queue ≡ 0

-- No object outside the list has a packet that waits for its report.
pub record NoneStranded (f : Filter) : Type 0 where
  pub listed : IsListed f
  pub reported : ReportedBut (λ _. false) f

-- An object may change if it keeps its flag and gets no packet that waits.
pub update-NoneStranded :
    (o : ℕ) (t : SocketObject) (f : Filter)
    → t.inserted_in_sockets_list_to_report ≡ (f.objects o).inserted_in_sockets_list_to_report
    → (unreported_count (f.objects o).pending_queue ≡ 0 → unreported_count t.pending_queue ≡ 0)
    → NoneStranded f
    → NoneStranded (record f { objects = update f.objects o t })
update-NoneStranded o t f l q h = record {
  listed = record {
    distinct = h.listed.distinct;
    flagged = λ i. ground (arith, h.listed.flagged i);
  };
  reported = λ i n m. ground (arith, h.reported i, q);
}

-- A step changes the trace only, as far as the lists and the queues go.
pub traced-NoneStranded :
    (f g : Filter)
    → g.objects ≡ f.objects
    → g.sockets_list_to_report ≡ f.sockets_list_to_report
    → NoneStranded f
    → NoneStranded g
traced-NoneStranded f g o l h = record {
  listed = record {
    distinct = rw l h.listed.distinct;
    flagged = λ i. rw (o, l) (h.listed.flagged i);
  };
  reported = λ i n m. rw o (h.reported i n (rw o at m));
}

pub Distinct-append :
    (xs : List ℕ) (o : ℕ) → Distinct xs → contains xs o ≡ false → Distinct (xs ++ o ∷ [])
Distinct-append [] o d c = (refl, tt)
Distinct-append (x ∷ xs) o d c =
    (ground (arith, contains-append xs (o ∷ []) x), Distinct-append xs o d.1 (ground arith))

pub deliver_object-IsListed :
    (env : Environment) (o : ℕ) (rest : List ℕ) (f : Filter)
    → f.sockets_list_to_report ≡ o ∷ rest
    → IsListed f
    → IsListed (deliver_object env o (record f { sockets_list_to_report = rest })).0
unfolding deliver_object
deliver_object-IsListed env o rest f e l =
    let d : Distinct (o ∷ rest) = rw e at l.distinct in
    record {
      distinct = d.1;
      flagged = λ i. ground (arith, l.flagged i, ap (λ xs. contains xs i) e);
    }

-- After its round only the object itself may be left with waiting packets, and if so it asks to be
-- put back.
deliver_object-ReportedBut :
    (env : Environment) (o : ℕ) (x : ℕ → Bool) (f : Filter)
    → ReportedBut x f
    → let (g, r) = deliver_object env o f in
      ReportedBut (update x o true) g × (r.reinsert_in_list ≡ false → ReportedBut x g)
unfolding deliver_object
deliver_object-ReportedBut env o x f w =
    let s = f.objects o in
    let all = (deliver_queue-reinsert env s s.pending_queue (first_round f s) refl).1 in
    (λ i n m. ground (arith, w i), λ none i n m. ground (arith, w i, all none))

put_back-IsListed :
    (o : ℕ) (reinsert : Bool) (f : Filter) → IsListed f → IsListed (put_back o reinsert f)
unfolding put_back
put_back-IsListed o false f l = record {
  distinct = l.distinct;
  flagged = λ i. ground (arith, l.flagged i);
}
put_back-IsListed o true f l = elim (Bool-cases (f.objects o).inserted_in_sockets_list_to_report) [
  | inl e ↦ rw e (record { distinct = l.distinct; flagged = λ i. ground (arith, l.flagged i) })
  | inr e ↦ rw e (record {
    distinct = Distinct-append f.sockets_list_to_report o l.distinct (sym (l.flagged o) ∙ e);
    flagged = λ i. ground (arith, l.flagged i, contains-append f.sockets_list_to_report (o ∷ []) i);
  })
]

put_back-ReportedBut :
    (o : ℕ) (reinsert : Bool) (x : ℕ → Bool) (f : Filter)
    → (reinsert ≡ false → ReportedBut x f)
    → ReportedBut (update x o true) f
    → ReportedBut x (put_back o reinsert f)
unfolding put_back
put_back-ReportedBut o true x f w v i n m = ground (arith, v i)
put_back-ReportedBut o false x f w v i n m = ground (arith, w refl i)

-- What the loop keeps, for the objects outside `x`.
abbrev Kept : (ℕ → Bool) → Filter → Type 0
Kept x f = IsListed f × ReportedBut x f

either-Kept :
    (x : ℕ → Bool) (b : Bool) (f g : Filter) → Kept x f → Kept x g → Kept x (if b then f else g)
either-Kept x true f g v w = v
either-Kept x false f g v w = w

released-Kept : (x : ℕ → Bool) (y : Filter × Round) → Kept x y.0 → Kept x (released y)
unfolding released
released-Kept x (f, r) (l, w) = (record { distinct = l.distinct; flagged = l.flagged }, w)

finish_round-Kept :
    (o : ℕ) (x : ℕ → Bool) (nested : Filter) (y : Filter × Round)
    → (y.1.reinsert_in_list ≡ false → Kept x y.0 × Kept x nested)
    → Kept (update x o true) y.0
    → Kept (update x o true) nested
    → Kept x (finish_round o nested y)
unfolding finish_round
finish_round-Kept o x nested (f, r) h v w =
    let k = either-Kept (update x o true) r.release_buffers nested f w v in
    let g = if r.release_buffers then nested else f in
    (
      put_back-IsListed o r.reinsert_in_list g k.0,
      put_back-ReportedBut o r.reinsert_in_list x g
          (λ n. (either-Kept x r.release_buffers nested f (h n).1 (h n).0).1) k.1,
    )

deliver-Kept :
    (env : Environment) (fuel : ℕ) (x : ℕ → Bool) (f : Filter)
    → Kept x f
    → Kept x (deliver env fuel f)
unfolding deliver
deliver-Kept env zero x f k = k
deliver-Kept env (suc fuel) x f (l, w) = elim (List-cases f.sockets_list_to_report) [
  | inl e ↦ rw e (record { distinct = rw e at l.distinct; flagged = rw e at l.flagged }, w)
  | inr (o, rest, e) ↦
      let listed = deliver_object-IsListed env o rest f e l in
      rw e (
        let g = record f { sockets_list_to_report = rest } in
        let y = deliver_object env o g in
        let (but, all) = deliver_object-ReportedBut env o x g w in
        let n = deliver env fuel (released y) in
        let step : Kept (update x o true) n =
          deliver-Kept env fuel (update x o true) _ (released-Kept _ y (listed, but)) in
        let k : Kept x (finish_round o n y) =
          finish_round-Kept o x n y
            (λ none. (
              (listed, all none),
              deliver-Kept env fuel x _ (released-Kept x y (listed, all none)),
            ))
            (listed, but) step in
        either-Kept x (y.1.error == 0) _ _ (deliver-Kept env fuel x _ k) k)
]

-- No packet is stranded by `releaseDataBuffersAndDeliverNotifications`, whatever the user client and
-- the copies return: if each object with a packet that waits for its report stands in
-- `SocketsListToReport`, this is so afterwards, and the list still holds each flagged object once.
pub release_and_deliver-NoneStranded :
    (env : Environment) (is : List ℕ) (f : Filter)
    → NoneStranded f
    → NoneStranded (release_data_buffers_and_deliver env is f)
unfolding release_data_buffers_and_deliver deliver_waiting_notifications
release_and_deliver-NoneStranded env is f h =
    let k =
      deliver-Kept env _ (λ _. false) (record f { pool = release_data_buffers is f.pool })
        (record { distinct = h.listed.distinct; flagged = h.listed.flagged }, h.reported) in
    record { listed = k.0; reported = k.1 }

pub deliver_waiting-NoneStranded :
    (env : Environment) (f : Filter)
    → NoneStranded f
    → NoneStranded (deliver_waiting_notifications env f)
unfolding deliver_waiting_notifications
deliver_waiting-NoneStranded env f h =
    let k = deliver-Kept env _ (λ _. false) f (h.listed, h.reported) in
    record { listed = k.0; reported = k.1 }

everybody : ℕ → Bool
everybody i = true

IsListed-Kept : (f : Filter) → IsListed f → Kept everybody f
unfolding everybody
IsListed-Kept f l = (l, λ i n m. absurd (ground arith))

pub deliver-IsListed :
    (env : Environment) (fuel : ℕ) (f : Filter) → IsListed f → IsListed (deliver env fuel f)
deliver-IsListed env fuel f l = (deliver-Kept env fuel everybody f (IsListed-Kept f l)).0

pub released-IsListed : (y : Filter × Round) → IsListed y.0 → IsListed (released y)
released-IsListed y l = (released-Kept everybody y (IsListed-Kept y.0 l)).0

pub finish_round-IsListed :
    (o : ℕ) (nested : Filter) (y : Filter × Round)
    → IsListed nested
    → IsListed y.0
    → IsListed (finish_round o nested y)
unfolding finish_round
finish_round-IsListed o nested (f, r) l k =
    put_back-IsListed o r.reinsert_in_list _
      (either-Kept everybody r.release_buffers nested f (IsListed-Kept nested l)
        (IsListed-Kept f k)).0
