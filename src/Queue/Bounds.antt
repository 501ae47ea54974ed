-- ===== src/Queue/Bounds.antt =====
-- Which bytes `enqueueWithBarrier` writes, and what `socketFilterNotification` returns.
use mac_osx_network_sockets.Base.{
  ℕ, ◌+◌, ◌≤◌, ◌≡◌, refl, ◌⊎◌, inl, inr, Bool, true, false, Option, none, some, List, [], ◌∷◌, ◌++◌,
  arith, length, subst, Option-cases,
}
use mac_osx_network_sockets.Queue.{
  IoReturn, DataQueue, place, enqueue_with_barrier, socket_filter_notification,
}
use mac_osx_network_sockets.Queue.Layout.{Holds}
use mac_osx_network_sockets.Queue.Enqueue.{
  Small, Placed, full, before_head, before_end, at_start, place-Placed, put_at_tail-out,
  put_at_start-out, enqueue_appends,
}

-- What lies behind the queue's memory is left alone, and the tail does not leave it.
abbrev pub StaysInside : DataQueue → DataQueue → Type 0
StaysInside q q' = (q'.tail ≤ q.queue_size) × ((i : ℕ) → q.queue_size ≤ i → q.queue i ≡ q'.queue i)

abbrev AllInside : DataQueue → Option DataQueue → Type 0
AllInside q none = Unit
AllInside q (some q') = StaysInside q q'

Placed-StaysInside :
    (d : List ℕ) (q : DataQueue) (o : Option DataQueue)
    → Small (length d + 4)
    → Small q.queue_size
    → q.head ≤ q.queue_size
    → q.tail ≤ q.queue_size
    → Placed d q o
    → AllInside q o
Placed-StaysInside d q none small size h t full = tt
Placed-StaysInside d q _ small size h t (before_head past room) =
    (omega arith, λ i out. put_at_tail-out d q i (inr (omega arith)))
Placed-StaysInside d q _ small size h t (before_end past room) =
    (omega arith, λ i out. put_at_tail-out d q i (inr (omega arith)))
Placed-StaysInside d q _ small size h t (at_start past over room) =
    (omega arith, λ i out. put_at_start-out d q i (omega arith) (inr out) size t)

-- A call of `enqueueWithBarrier` where the head and the tail are inside the queue, whatever the
-- bytes in it are, of data and a queue whose sizes are below 2^31: no byte behind the queue's
-- memory is written, and the new tail is inside it.
pub enqueue-StaysInside :
    (h : ℕ) (d : List ℕ) (q : DataQueue)
    → Small (length d + 4)
    → Small q.queue_size
    → q.head ≤ q.queue_size
    → q.tail ≤ q.queue_size
    → StaysInside q (enqueue_with_barrier h d q).data_queue
unfolding enqueue_with_barrier
enqueue-StaysInside h d q small size hd t =
    let inside =
      Placed-StaysInside d q (place d q) small size hd t (place-Placed d q small size t) in
    elim (Option-cases (place d q)) [
      | inl e ↦ rw (enqueue_with_barrier, e) (t, λ i out. refl)
      | inr (q', e) ↦ rw (enqueue_with_barrier, e) (subst (AllInside q) e inside)
    ]

-- What `socketFilterNotification` returns at a queue that holds some entries, of data and a queue
-- whose sizes are below 2^31: success exactly if the client has a port and the entry was put
-- behind the others; an error where there is no port; no memory where the queue is full. Unless it
-- returns success, the queue is as it was.
pub notification_status :
    (port : Bool) (h : ℕ) (d : List ℕ) (q : DataQueue) (es : List (List ℕ))
    → Small (length d + 4)
    → Small q.queue_size
    → Holds q es
    → let (status, e) = socket_filter_notification port h d q in
      ((status ≡ IoReturn.success) × (port ≡ true) × Holds e.data_queue (es ++ d ∷ []))
      ⊎ ((status ≡ IoReturn.error) × (port ≡ false) × (e.data_queue ≡ q))
      ⊎ ((status ≡ IoReturn.no_memory) × (port ≡ true) × (e.data_queue ≡ q))
unfolding socket_filter_notification
notification_status false h d q es small size holds = inr (inl (refl, refl, refl))
notification_status true h d q es small size holds =
    elim (enqueue_appends h d q es small size holds) [
      | inl (took, next) ↦ inl (rw took refl, refl, next)
      | inr (failed, same) ↦ inr (inr (rw failed refl, refl, same))
    ]
