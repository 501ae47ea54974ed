-- ===== src/Tests/Queue.antt =====
-- The data queue at concrete inputs: a queue of 20 bytes whose only entry ends at byte 16.
use mac_osx_network_sockets.Base.{
  ℕ, ◌≤◌, ◌<◌, ◌≡◌, refl, ◌⊎◌, true, false, some, List, [], ◌∷◌, arith,
}
use mac_osx_network_sockets.Queue.{
  IoReturn, DataQueue, enqueue_with_barrier, socket_filter_notification, io_data_queue_dequeue,
}
use mac_osx_network_sockets.Queue.Bytes.{Memory, write_bytes, read_bytes, write_word}
use mac_osx_network_sockets.Queue.Layout.{Holds, straight}
use mac_osx_network_sockets.Queue.Enqueue.{enqueue_appends, enqueue_empty}
use mac_osx_network_sockets.Queue.Dequeue.{dequeue_takes}
use mac_osx_network_sockets.Queue.Order.{Call, kernel, client, run, run-IsFifo, IsFifo}
use mac_osx_network_sockets.Queue.Bounds.{enqueue-StaysInside, StaysInside, notification_status}

abbrev no_bytes : Memory
no_bytes i = 0

abbrev one_entry : DataQueue
one_entry = record {
  queue_size = 20;
  head = 8;
  tail = 16;
  queue = write_bytes 12 (5 ∷ 6 ∷ 7 ∷ 8 ∷ []) (write_word 8 4 no_bytes);
}

abbrev no_entry : DataQueue
no_entry = record { queue_size = 20; head = 8; tail = 8; queue = no_bytes }

one_entry-Holds : Holds one_entry ((5 ∷ 6 ∷ 7 ∷ 8 ∷ []) ∷ [])
unfolding write_bytes read_bytes
one_entry-Holds = straight refl (omega arith) (refl, refl, tt)

no_entry-Holds : Holds no_entry []
no_entry-Holds = straight refl (omega arith) tt

-- The second entry goes to the beginning, with a mark behind the first, and the client reads both.
abbrev calls : List Call
calls = client 2 ∷ kernel 8 (1 ∷ 2 ∷ []) ∷ client 4 ∷ client 9 ∷ client 4 ∷ []

abbrev held : List ℕ
held = 5 ∷ 6 ∷ 7 ∷ 8 ∷ []

run-IsFifo_example : IsFifo (held ∷ []) (run calls one_entry)
run-IsFifo_example =
    run-IsFifo calls one_entry (held ∷ []) (omega arith, tt) (omega arith) one_entry-Holds

enqueue_appends_example :
    (((enqueue_with_barrier 16 (1 ∷ []) one_entry).enqueued ≡ true)
      × Holds (enqueue_with_barrier 16 (1 ∷ []) one_entry).data_queue (held ∷ (1 ∷ []) ∷ []))
    ⊎ (((enqueue_with_barrier 16 (1 ∷ []) one_entry).enqueued ≡ false)
        × ((enqueue_with_barrier 16 (1 ∷ []) one_entry).data_queue ≡ one_entry))
enqueue_appends_example =
    enqueue_appends 16 (1 ∷ []) one_entry (held ∷ []) (omega arith) (omega arith) one_entry-Holds

enqueue_empty_example :
    ((enqueue_with_barrier 8 (1 ∷ []) no_entry).enqueued ≡ true)
    × ((enqueue_with_barrier 8 (1 ∷ []) no_entry).notified ≡ true)
enqueue_empty_example =
    enqueue_empty 8 (1 ∷ []) no_entry (omega arith) (omega arith) no_entry-Holds (omega arith)

dequeue_takes_example :
    (4 ≤ 9
      → (q' : DataQueue) × Holds q' []
        × (q'.queue_size ≡ 20)
        × (io_data_queue_dequeue true (some 9) one_entry ≡ record {
          status = IoReturn.success;
          copied = held;
          data_size = some 4;
          data_queue = q';
        }))
    × (9 < 4
        → io_data_queue_dequeue true (some 9) one_entry ≡ record {
          status = IoReturn.no_space;
          copied = [];
          data_size = some 4;
          data_queue = one_entry;
        })
dequeue_takes_example = dequeue_takes 9 one_entry held [] (omega arith) one_entry-Holds

enqueue-StaysInside_example :
    StaysInside one_entry (enqueue_with_barrier 8 (1 ∷ []) one_entry).data_queue
enqueue-StaysInside_example =
    enqueue-StaysInside 8 (1 ∷ []) one_entry (omega arith) (omega arith) (omega arith) (omega arith)

notification_status_example :
    let (status, e) = socket_filter_notification true 8 (1 ∷ 2 ∷ []) one_entry in
    ((status ≡ IoReturn.success) × (true ≡ true) × Holds e.data_queue (held ∷ (1 ∷ 2 ∷ []) ∷ []))
    ⊎ ((status ≡ IoReturn.error) × (true ≡ false) × (e.data_queue ≡ one_entry))
    ⊎ ((status ≡ IoReturn.no_memory) × (true ≡ true) × (e.data_queue ≡ one_entry))
notification_status_example =
    notification_status true 8 (1 ∷ 2 ∷ []) one_entry (held ∷ []) (omega arith) (omega arith)
      one_entry-Holds
