-- ===== src/Queue/Order.antt =====
-- Any calls of `enqueueWithBarrier` and `IODataQueueDequeue`, one after the other: the entries come
-- out as they went in.
use mac_osx_network_sockets.Base.{
  ℕ, ◌+◌, ◌≡◌, sym, ap, ◌∙◌, inl, inr, Bool, true, some, List, [], ◌∷◌, ◌++◌, arith, length, subst,
  ltb, if◌then◌else◌, Bool-cases, append-nil, append_assoc, ltb→lt,
}
use mac_osx_network_sockets.Queue.{IoReturn, DataQueue, enqueue_with_barrier, io_data_queue_dequeue}
use mac_osx_network_sockets.Queue.Layout.{Holds}
use mac_osx_network_sockets.Queue.Enqueue.{Small, enqueue_appends, enqueue-size}
use mac_osx_network_sockets.Queue.Dequeue.{dequeue_empty, dequeue_takes}

-- A call of the kernel with the data of an entry, or of the client with the size of its buffer.
pub data Call : Type 0 where
  kernel : (head_then : ℕ) → List ℕ → Call
  client : (room : ℕ) → Call

pub record Trace : Type 0 where
  -- the entries that `enqueueWithBarrier` took
  pub accepted : List (List ℕ)
  -- the entries that `IODataQueueDequeue` copied out
  pub delivered : List (List ℕ)
  pub data_queue : DataQueue

after_enqueue : List ℕ → Bool → Trace → Trace
after_enqueue d took t = if took then record t { accepted = d ∷ t.accepted } else t

after_dequeue : IoReturn → List ℕ → Trace → Trace
after_dequeue IoReturn.success d t = record t { delivered = d ∷ t.delivered }
after_dequeue _ d t = t

pub run : List Call → DataQueue → Trace
unfolding after_enqueue after_dequeue
run [] q = record { accepted = []; delivered = []; data_queue = q }
run (kernel h d ∷ cs) q =
    let e = enqueue_with_barrier h d q in after_enqueue d e.enqueued (run cs e.data_queue)
run (client room ∷ cs) q =
    let r = io_data_queue_dequeue true (some room) q in
    after_dequeue r.status r.copied (run cs r.data_queue)

-- Every entry is shorter than 2^31 - 4 bytes.
abbrev pub AllSmall : List Call → Type 0
AllSmall [] = Unit
AllSmall (kernel h d ∷ cs) = Small (length d + 4) × AllSmall cs
AllSmall (client room ∷ cs) = AllSmall cs

-- What was in the queue and what was taken is what came out and what is left, in this order.
pub record IsFifo (es : List (List ℕ)) (t : Trace) : Type 0 where
  pub left : List (List ℕ)
  pub holds : Holds t.data_queue left
  pub order : es ++ t.accepted ≡ t.delivered ++ left

-- Any calls of the kernel and the client, at a queue of a size below 2^31 that holds some entries:
-- the entries that the client has got, followed by those that the queue holds in the end, are the
-- entries it held at first, followed by those that the kernel was told had been taken. None is
-- lost, doubled, damaged or overtaken.
pub run-IsFifo :
    (cs : List Call) (q : DataQueue) (es : List (List ℕ))
    → AllSmall cs
    → Small q.queue_size
    → Holds q es
    → IsFifo es (run cs q)
unfolding run after_enqueue after_dequeue
run-IsFifo [] q es small size h = record { left = es; holds = h; order = append-nil es }
run-IsFifo (kernel h d ∷ cs) q es small size holds =
    elim (enqueue_appends h d q es small.0 size holds) [
      | inl (took, next) ↦
          let ih =
            run-IsFifo cs (enqueue_with_barrier h d q).data_queue (es ++ d ∷ []) small.1
              (subst Small (sym (enqueue-size h d q)) size) next in
          rw (run, took)
            (record {
              left = ih.left;
              holds = ih.holds;
              order = sym (append_assoc es (d ∷ []) _) ∙ ih.order;
            })
      | inr (failed, same) ↦ rw (run, failed, same) (run-IsFifo cs q es small.1 size holds)
    ]
run-IsFifo (client room ∷ cs) q [] small size holds =
    rw (run, dequeue_empty true (some room) q holds) (run-IsFifo cs q [] small size holds)
run-IsFifo (client room ∷ cs) q (d ∷ es) small size holds =
    let (enough, few) = dequeue_takes room q d es size holds in
    elim (Bool-cases (ltb room (length d))) [
      | inl r ↦ rw (run, few (ltb→lt room (length d) r)) (run-IsFifo cs q (d ∷ es) small size holds)
      | inr r ↦
          let (q', next, same, e) = enough (ground arith) in
          let ih = run-IsFifo cs q' es small (subst Small (sym same) size) next in
          rw (run, e) (record { left = ih.left; holds = ih.holds; order = ap (◌∷◌ d) ih.order })
    ]
