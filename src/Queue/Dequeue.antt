-- ===== src/Queue/Dequeue.antt =====
-- `IODataQueueDequeue` takes the oldest entry out of what the queue holds, or changes nothing.
use mac_osx_network_sockets.Base.{
  ℕ, ◌+◌, ◌≤◌, ◌<◌, ◌≡◌, refl, sym, ◌∙◌, Bool, true, Option, none, some, List, [], ◌∷◌, arith,
  length, subst, lt→ltb, ge→ltb,
}
use mac_osx_network_sockets.Queue.Bytes.{read_bytes, read_word}
use mac_osx_network_sockets.Queue.Layout.{extent, IsMark, Holds, straight, wrapped}
use mac_osx_network_sockets.Queue.Enqueue.{Small, Holds-empty}
use mac_osx_network_sockets.Queue.{
  IoReturn, DataQueue, next_entry, take_entry, io_data_queue_dequeue,
}

-- Where the oldest entry stands, and what is left without it.
pub record IsNext (q : DataQueue) (d : List ℕ) (es : List (List ℕ)) (at new_head : ℕ) : Type 0 where
  pub found : next_entry q ≡ some (at, new_head)
  pub size : read_word at q.queue ≡ length d
  pub bytes : read_bytes (at + 4) (length d) q.queue ≡ d
  pub rest : Holds (record q { head = new_head }) es

next_entry-straight :
    (q : DataQueue) (n : ℕ)
    → Small q.queue_size
    → read_word q.head q.queue ≡ n
    → q.head + 4 + n ≤ q.tail
    → q.tail ≤ q.queue_size
    → next_entry q ≡ some (q.head, q.head + 4 + n)
unfolding next_entry
next_entry-straight q n size w past t = ground arith

next_entry-mark :
    (q : DataQueue) (n : ℕ)
    → Small q.queue_size
    → q.tail < q.head
    → q.head ≤ q.queue_size
    → IsMark q.queue_size q.queue q.head
    → read_word 0 q.queue ≡ n
    → 4 + n ≤ q.tail
    → next_entry q ≡ some (0, 4 + n)
unfolding next_entry
next_entry-mark q n size past h mark w fits = ground arith

next_entry-front :
    (q : DataQueue) (n : ℕ)
    → Small q.queue_size
    → q.tail < q.head
    → read_word q.head q.queue ≡ n
    → q.head + 4 + n ≤ q.queue_size
    → next_entry q ≡ some (q.head, q.head + 4 + n)
unfolding next_entry
next_entry-front q n size past w fits = ground arith

abbrev pub NextOf : DataQueue → List (List ℕ) → Type 0
NextOf q [] = Unit
NextOf q (d ∷ es) = (at : ℕ) × (new_head : ℕ) × IsNext q d es at new_head

Holds-NextOf : (q : DataQueue) (es : List (List ℕ)) → Small q.queue_size → Holds q es → NextOf q es
Holds-NextOf q [] size h = tt
Holds-NextOf q (d ∷ es) size (straight len t (word, bytes, rest)) = (
  q.head,
  q.head + 4 + length d,
  record {
    found = next_entry-straight q (length d) size word (omega arith) t;
    size = word;
    bytes = bytes;
    rest = straight (omega arith) t rest;
  },
)
Holds-NextOf q es size (wrapped [] b back split end mark s len past (word, bytes, rest)) =
    let at_head =
      subst (λ n. IsMark q.queue_size q.queue n) {x = q.head + 0} {y = q.head} (omega arith) mark in
    subst (NextOf q) (sym split) (
      0,
      4 + length b,
      record {
        found = next_entry-mark q (length b) size past (omega arith) at_head word (omega arith);
        size = word;
        bytes = bytes;
        rest = straight (omega arith) (omega arith) rest;
      },
    )
Holds-NextOf q es size (wrapped (f ∷ front) b back split end mark (word, bytes, rest) len past t) =
    let w : q.head + (4 + length f + extent front) ≡ q.head + 4 + length f + extent front =
      omega arith in
    subst (NextOf q) (sym split) (
      q.head,
      q.head + 4 + length f,
      record {
        found = next_entry-front q (length f) size past word (omega arith);
        size = word;
        bytes = bytes;
        rest =
            wrapped front b back refl (omega arith)
              (subst (λ n. IsMark q.queue_size q.queue n) w mark) rest len (omega arith) t;
      },
    )

next_entry-none : (q : DataQueue) → q.head ≡ q.tail → next_entry q ≡ none
unfolding next_entry
next_entry-none q e = ground arith

-- A call of `IODataQueueDequeue` at a queue that holds nothing reports an underrun and changes
-- nothing.
pub dequeue_empty :
    (wanted : Bool) (room : Option ℕ) (q : DataQueue)
    → Holds q []
    → io_data_queue_dequeue wanted room q
      ≡ record { status = IoReturn.underrun; copied = []; data_size = room; data_queue = q }
unfolding io_data_queue_dequeue
dequeue_empty wanted room q h = rw (io_data_queue_dequeue, next_entry-none q (Holds-empty q h)) refl

dequeue-found :
    (wanted : Bool) (room : Option ℕ) (at new_head : ℕ) (q : DataQueue)
    → next_entry q ≡ some (at, new_head)
    → io_data_queue_dequeue wanted room q ≡ take_entry wanted room at new_head q
unfolding io_data_queue_dequeue
dequeue-found wanted room at new_head q e = rw (io_data_queue_dequeue, e) refl

module _ (d : List ℕ) (room at new_head : ℕ) (q : DataQueue)
    (size : read_word at q.queue ≡ length d) where
  take_entry-copies :
      read_bytes (at + 4) (length d) q.queue ≡ d
      → length d ≤ room
      → take_entry true (some room) at new_head q ≡ record {
        status = IoReturn.success;
        copied = d;
        data_size = some (length d);
        data_queue = record q { head = new_head };
      }
  unfolding take_entry
  take_entry-copies bytes fits = rw (size, ge→ltb room (length d) fits, bytes) refl

  take_entry-refuses :
      room < length d
      → take_entry true (some room) at new_head q ≡ record {
        status = IoReturn.no_space;
        copied = [];
        data_size = some (length d);
        data_queue = q;
      }
  unfolding take_entry
  take_entry-refuses few = rw (size, lt→ltb room (length d) few) refl

-- A queue that holds entries, of a size below 2^31: a call of `IODataQueueDequeue` with enough
-- room copies out the oldest entry and its length, and the queue holds the others; with too
-- little room it reports the length that is needed and changes nothing.
pub dequeue_takes :
    (room : ℕ) (q : DataQueue) (d : List ℕ) (es : List (List ℕ))
    → Small q.queue_size
    → Holds q (d ∷ es)
    → (length d ≤ room
        → (q' : DataQueue) × Holds q' es
          × (q'.queue_size ≡ q.queue_size)
          × (io_data_queue_dequeue true (some room) q ≡ record {
            status = IoReturn.success;
            copied = d;
            data_size = some (length d);
            data_queue = q';
          }))
      × (room < length d
          → io_data_queue_dequeue true (some room) q ≡ record {
            status = IoReturn.no_space;
            copied = [];
            data_size = some (length d);
            data_queue = q;
          })
dequeue_takes room q d es size h =
    let (at, new_head, n) = Holds-NextOf q (d ∷ es) size h in
    let e = dequeue-found true (some room) at new_head q n.found in
    (
      (λ fits. (
        record q { head = new_head },
        n.rest,
        refl,
        e ∙ take_entry-copies d room at new_head q n.size n.bytes fits,
      )),
      (λ few. e ∙ take_entry-refuses d room at new_head q n.size few),
    )
