-- ===== src/Queue.antt =====
-- The data queue between the kernel and its client: `IODataQueueWrapper` and
-- `socketFilterNotification` of NKE/NetworkKernelExtension/NkeIOUserClient.cpp, and
-- `IODataQueueDequeue` of NKE/NetworkKernelExtension/NkeSocketObject.cpp.
-- Both sides see the same `IODataQueueMemory`: two offsets, a size, and bytes in which an entry is
-- a 32-bit length (`DATA_QUEUE_ENTRY_HEADER_SIZE` is 4) and then the data.
pub mod Bytes
pub mod Layout
pub mod Enqueue
pub mod Dequeue
pub mod Order
pub mod Bounds
use mac_osx_network_sockets.Base.{
  ℕ, zero, suc, ◌+◌, ◌-◌, ◌*◌, ◌/◌, ◌%◌, Bool, true, false, not, ◌&&◌, ◌||◌, Option, none, some,
  List, [], ◌∷◌, ltb, ◌==◌, if◌then◌else◌, update, length, add32, sub32,
}
use mac_osx_network_sockets.Queue.Bytes.{
  Memory, write_bytes, read_bytes, word, read_word, write_word,
}

-- `kIOReturnSuccess`, `kIOReturnError`, `kIOReturnNoMemory`, `kIOReturnBadArgument`,
-- `kIOReturnUnderrun` and `kIOReturnNoSpace`
pub data IoReturn : Type 0 where
  success : IoReturn
  error : IoReturn
  no_memory : IoReturn
  bad_argument : IoReturn
  underrun : IoReturn
  no_space : IoReturn

-- `DATA_QUEUE_ENTRY_HEADER_SIZE`
abbrev pub header_size : ℕ
header_size = 4

-- `IODataQueueMemory`
pub record DataQueue : Type 0 where
  pub queue_size : ℕ
  pub head : ℕ
  pub tail : ℕ
  pub queue : Memory

pub record Enqueued : Type 0 where
  pub enqueued : Bool
  -- was `sendDataAvailableNotification` called?
  pub notified : Bool
  pub data_queue : DataQueue

abbrev pub refused : DataQueue → Enqueued
refused q = record { enqueued = false; notified = false; data_queue = q }

-- An entry at the tail: its size, its data, and only then the new tail.
abbrev pub put_at_tail : List ℕ → DataQueue → DataQueue
put_at_tail d q = record q {
  queue = write_bytes (q.tail + header_size) d (write_word q.tail (length d) q.queue);
  tail = add32 q.tail (add32 (length d) header_size);
}

-- An entry at the beginning; where the old tail leaves room for it, the size is put there too.
abbrev pub put_at_start : List ℕ → DataQueue → DataQueue
put_at_start d q =
    let first = write_word 0 (length d) q.queue in
    let marked =
      if ltb (sub32 q.queue_size q.tail) header_size
      then first
      else write_word q.tail (length d) first in
    record q { queue = write_bytes header_size d marked; tail = add32 (length d) header_size }

-- Where `enqueueWithBarrier` puts an entry, if it has room for it.
-- The subtraction `head - tail` is made only where `tail < head`.
pub place : List ℕ → DataQueue → Option DataQueue
place d q =
    let entry_size = add32 (length d) header_size in
    if ltb q.tail q.head
    then (if ltb entry_size (q.head - q.tail) then some (put_at_tail d q) else none)
    else if ltb q.queue_size (add32 q.tail entry_size)
    then (if ltb entry_size q.head then some (put_at_start d q) else none)
    else some (put_at_tail d q)

-- `enqueueWithBarrier` of the bytes `d`. `head_then` is the head when it is read a second time,
-- after the tail has been moved: the client may have moved it meanwhile.
pub enqueue_with_barrier : ℕ → List ℕ → DataQueue → Enqueued
unfolding place
enqueue_with_barrier head_then d q = elim (place d q) [
  | none ↦ refused q
  | some q' ↦ record {
    enqueued = true;
    notified = (q.head == q.tail) || (head_then == q.tail);
    data_queue = q';
  }
]

-- What `socketFilterNotification` returns. `port` says whether
-- `fNotificationPorts[ kt_NkeNotifyTypeSocketFilter ]` is set; the build is one without `DBG`.
pub socket_filter_notification : Bool → ℕ → List ℕ → DataQueue → IoReturn × Enqueued
unfolding enqueue_with_barrier
socket_filter_notification false head_then d q = (IoReturn.error, refused q)
socket_filter_notification true head_then d q =
    let e = enqueue_with_barrier head_then d q in
    (if e.enqueued then IoReturn.success else IoReturn.no_memory, e)

pub record Dequeued : Type 0 where
  pub status : IoReturn
  -- the bytes copied to `data`
  pub copied : List ℕ
  -- `*dataSize`, if the pointer is not null
  pub data_size : Option ℕ
  pub data_queue : DataQueue

-- The entry that is read next, as the offset of its size and the head behind it.
-- `none` is an empty queue.
pub next_entry : DataQueue → Option (ℕ × ℕ)
next_entry q =
    let size = read_word q.head q.queue in
    if q.head == q.tail
    then none
    else if ltb q.queue_size (add32 q.head header_size)
        || ltb q.queue_size (add32 (add32 q.head size) header_size)
    then some (0, add32 (read_word 0 q.queue) header_size)
    else some (q.head, add32 (add32 q.head size) header_size)

-- Copies the entry at an offset out, if the caller has room for it, and moves the head.
pub take_entry : Bool → Option ℕ → ℕ → ℕ → DataQueue → Dequeued
take_entry false room at new_head q = record {
  status = IoReturn.success;
  copied = [];
  data_size = room;
  data_queue = record q { head = new_head };
}
take_entry true none at new_head q = record {
  status = IoReturn.bad_argument;
  copied = [];
  data_size = none;
  data_queue = q;
}
take_entry true (some room) at new_head q =
    let size = read_word at q.queue in
    if ltb room size
    then record { status = IoReturn.no_space; copied = []; data_size = some size; data_queue = q }
    else record {
      status = IoReturn.success;
      copied = read_bytes (at + header_size) size q.queue;
      data_size = some size;
      data_queue = record q { head = new_head };
    }

-- `IODataQueueDequeue` with a queue; `wanted` says whether `data` is not null, `room` is
-- `*dataSize`.
pub io_data_queue_dequeue : Bool → Option ℕ → DataQueue → Dequeued
unfolding next_entry take_entry
io_data_queue_dequeue wanted room q = elim (next_entry q) [
  | none ↦ record { status = IoReturn.underrun; copied = []; data_size = room; data_queue = q }
  | some (at, new_head) ↦ take_entry wanted room at new_head q
]
