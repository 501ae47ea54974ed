-- ===== src/Queue/Enqueue.antt =====
-- `enqueueWithBarrier` appends an entry to what the queue holds, or refuses it.
use mac_osx_network_sockets.Base.{
  ℕ, ◌+◌, ◌-◌, ◌*◌, ◌≤◌, ◌<◌, ◌≡◌, refl, sym, ◌∙◌, ◌⊎◌, inl, inr, true, false, Option, none, some,
  List, [], ◌∷◌, ◌++◌, arith, length, subst, ltb, add32, sub32, Bool-cases, append_assoc,
  Option-cases,
}
use mac_osx_network_sockets.Queue.Bytes.{
  Memory, write_bytes, word, read_word, write_word, write_bytes-out, read-write_word,
}
use mac_osx_network_sockets.Queue.Layout.{
  extent, IsStretch, IsMark, Holds, straight, wrapped, extent-append, read_word-cong,
  IsStretch-cong, IsStretch-append, IsStretch-entry,
}
use mac_osx_network_sockets.Queue.{
  DataQueue, place, put_at_tail, put_at_start, enqueue_with_barrier,
}

-- The sizes that the sums of `UInt32` stand for themselves at.
abbrev pub Small : ℕ → Type 0
Small n = n < 2147483648

pub data Placed (d : List ℕ) (q : DataQueue) : Option DataQueue → Type 0 where
  full : Placed d q none
  before_head :
      q.tail < q.head → q.tail + 4 + length d < q.head → Placed d q (some (put_at_tail d q))
  before_end :
      q.head ≤ q.tail → q.tail + 4 + length d ≤ q.queue_size → Placed d q (some (put_at_tail d q))
  at_start :
      q.head ≤ q.tail
      → q.queue_size < q.tail + 4 + length d
      → 4 + length d < q.head
      → Placed d q (some (put_at_start d q))

-- The cases of `enqueueWithBarrier`, in numbers that do not wrap.
pub place-Placed :
    (d : List ℕ) (q : DataQueue)
    → Small (length d + 4)
    → Small q.queue_size
    → q.tail ≤ q.queue_size
    → Placed d q (place d q)
unfolding place
place-Placed d q small size t = elim (Bool-cases (ltb q.tail q.head)) [
  | inl b ↦ elim (Bool-cases (ltb (add32 (length d) 4) (q.head - q.tail))) [
    | inl r ↦ rw (b, r) (before_head (ground arith) (ground arith))
    | inr r ↦ rw (b, r) full
  ]
  | inr b ↦ elim (Bool-cases (ltb q.queue_size (add32 q.tail (add32 (length d) 4)))) [
    | inl e ↦ elim (Bool-cases (ltb (add32 (length d) 4) q.head)) [
      | inl r ↦ rw (b, e, r) (at_start (ground arith) (ground arith) (ground arith))
      | inr r ↦ rw (b, e, r) full
    ]
    | inr e ↦ rw (b, e) (before_end (ground arith) (ground arith))
  ]
]

-- Which bytes an entry at the tail leaves alone.
pub put_at_tail-out :
    (d : List ℕ) (q : DataQueue) (i : ℕ)
    → (i < q.tail) ⊎ (q.tail + 4 + length d ≤ i)
    → q.queue i ≡ (put_at_tail d q).queue i
put_at_tail-out d q i out = sym (
    write_bytes-out (q.tail + 4) d (write_word q.tail (length d) q.queue) i (ground arith)
    ∙ write_bytes-out q.tail (word (length d)) q.queue i (ground arith))

-- Which bytes an entry at the beginning leaves alone.
pub put_at_start-out :
    (d : List ℕ) (q : DataQueue) (i : ℕ)
    → 4 + length d ≤ i
    → (i < q.tail) ⊎ (q.queue_size ≤ i)
    → Small q.queue_size
    → q.tail ≤ q.queue_size
    → q.queue i ≡ (put_at_start d q).queue i
put_at_start-out d q i past out bounded t =
    let first : Memory = write_word 0 (length d) q.queue in
    sym (
      elim (Bool-cases (ltb (sub32 q.queue_size q.tail) 4)) [
        | inl r ↦ rw r (write_bytes-out 4 d first i (omega arith))
        | inr r ↦ rw r (
            write_bytes-out 4 d (write_word q.tail (length d) first) i (omega arith)
            ∙ write_bytes-out q.tail (word (length d)) first i (ground arith))
      ]
      ∙ write_bytes-out 0 (word (length d)) q.queue i (omega arith))

put_at_tail-entry :
    (d : List ℕ) (q : DataQueue)
    → Small (length d + 4)
    → IsStretch (put_at_tail d q).queue q.tail (d ∷ [])
put_at_tail-entry d q small =
    IsStretch-entry (write_word q.tail (length d) q.queue) q.tail d
      (read-write_word q.tail (length d) q.queue (omega arith))

put_at_start-entry :
    (d : List ℕ) (q : DataQueue)
    → Small (length d + 4)
    → 4 + length d < q.tail
    → IsStretch (put_at_start d q).queue 0 (d ∷ [])
put_at_start-entry d q small past =
    let first : Memory = write_word 0 (length d) q.queue in
    let size = read-write_word 0 (length d) q.queue (omega arith) in
    elim (Bool-cases (ltb (sub32 q.queue_size q.tail) 4)) [
      | inl r ↦ rw r (IsStretch-entry first 0 d size)
      | inr r ↦ rw r (
          IsStretch-entry (write_word q.tail (length d) first) 0 d (
            read_word-cong first (write_word q.tail (length d) first) 0
              (λ i lo hi. sym (write_bytes-out q.tail (word (length d)) first i (omega arith)))
            ∙ size))
    ]

put_at_start-IsMark :
    (d : List ℕ) (q : DataQueue)
    → Small (length d + 4)
    → 4 + length d < q.tail
    → Small q.queue_size
    → q.tail ≤ q.queue_size
    → q.queue_size < q.tail + 4 + length d
    → IsMark q.queue_size (put_at_start d q).queue q.tail
put_at_start-IsMark d q small past bounded t over =
    let first : Memory = write_word 0 (length d) q.queue in
    let marked : Memory = write_word q.tail (length d) first in
    elim (Bool-cases (ltb (sub32 q.queue_size q.tail) 4)) [
      | inl r ↦ inl (ground arith)
      | inr r ↦ rw r (
          let size : read_word q.tail (write_bytes 4 d marked) ≡ length d =
            read_word-cong marked (write_bytes 4 d marked) q.tail
              (λ i lo hi. sym (write_bytes-out 4 d marked i (omega arith)))
            ∙ read-write_word q.tail (length d) first (omega arith) in
          inr (omega (arith, size), omega (arith, size)))
    ]

-- A mark outlives what happens elsewhere.
IsMark-cong :
    (size w : ℕ) (m m' : Memory)
    → ((i : ℕ) → w ≤ i → i < size → m i ≡ m' i)
    → IsMark size m w
    → IsMark size m' w
IsMark-cong size w m m' same (inl past) = inl past
IsMark-cong size w m m' same (inr (over, small)) = elim (Bool-cases (ltb size (w + 4))) [
  | inl r ↦ inl (ground arith)
  | inr r ↦
      let e = read_word-cong m m' w (λ i lo hi. same i lo (ground arith)) in
      inr (omega (arith, e), omega (arith, e))
]

-- The queue behind a successful call holds one entry more.
abbrev pub HoldsNext : List (List ℕ) → List ℕ → Option DataQueue → Type 0
HoldsNext es d none = Unit
HoldsNext es d (some q') = Holds q' (es ++ d ∷ [])

append_split :
    (es front : List (List ℕ)) (b : List ℕ) (back : List (List ℕ)) (d : List ℕ)
    → es ≡ front ++ b ∷ back
    → es ++ d ∷ [] ≡ front ++ b ∷ (back ++ d ∷ [])
append_split es front b back d split = rw split (append_assoc front (b ∷ back) (d ∷ []))

module _ (d : List ℕ) (q : DataQueue) (small : Small (length d + 4))
    (size : Small q.queue_size) where
  put_at_tail-tail :
      q.tail + 4 + length d ≤ q.queue_size → (put_at_tail d q).tail ≡ q.tail + 4 + length d
  put_at_tail-tail fits = omega arith

  put_at_tail-straight :
      (es : List (List ℕ))
      → q.head + extent es ≡ q.tail
      → IsStretch q.queue q.head es
      → q.tail + 4 + length d ≤ q.queue_size
      → Holds (put_at_tail d q) (es ++ d ∷ [])
  put_at_tail-straight es len s fits =
      straight (omega (arith, extent-append es (d ∷ []), put_at_tail-tail fits))
        (omega (arith, put_at_tail-tail fits))
        (IsStretch-append (put_at_tail d q).queue q.head es (d ∷ [])
          (IsStretch-cong q.queue (put_at_tail d q).queue q.head es
            (λ i lo hi. put_at_tail-out d q i (inl (omega arith))) s)
          (rw len (put_at_tail-entry d q small)))

  put_at_tail-wrapped :
      (front : List (List ℕ)) (b : List ℕ) (back : List (List ℕ))
      → q.head + extent front ≤ q.queue_size
      → IsMark q.queue_size q.queue (q.head + extent front)
      → IsStretch q.queue q.head front
      → extent (b ∷ back) ≡ q.tail
      → IsStretch q.queue 0 (b ∷ back)
      → q.tail + 4 + length d < q.head
      → Holds (put_at_tail d q) (front ++ b ∷ (back ++ d ∷ []))
  put_at_tail-wrapped front b back end mark s len t fits =
      let tail = put_at_tail-tail (omega arith) in
      let q' : DataQueue = put_at_tail d q in
      wrapped front b (back ++ d ∷ []) refl end
        (IsMark-cong q.queue_size (q.head + extent front) q.queue q'.queue
          (λ i lo hi. put_at_tail-out d q i (inr (omega arith))) mark)
        (IsStretch-cong q.queue q'.queue q.head front
          (λ i lo hi. put_at_tail-out d q i (inr (omega arith))) s)
        (omega (arith, extent-append back (d ∷ []), tail)) (omega (arith, tail))
        (IsStretch-append q'.queue 0 (b ∷ back) (d ∷ [])
          (IsStretch-cong q.queue q'.queue 0 (b ∷ back)
            (λ i lo hi. put_at_tail-out d q i (inl (omega arith))) t)
          (subst (λ k. IsStretch q'.queue k (d ∷ [])) (omega (arith, len))
            (put_at_tail-entry d q small)))

  put_at_start-wrapped :
      (es : List (List ℕ))
      → q.head + extent es ≡ q.tail
      → IsStretch q.queue q.head es
      → q.tail ≤ q.queue_size
      → q.queue_size < q.tail + 4 + length d
      → 4 + length d < q.head
      → Holds (put_at_start d q) (es ++ d ∷ [])
  put_at_start-wrapped es len s t over fits =
      wrapped es d [] refl (omega arith)
        (rw len (put_at_start-IsMark d q small (omega arith) size t over))
        (IsStretch-cong q.queue (put_at_start d q).queue q.head es
          (λ i lo hi. put_at_start-out d q i (omega arith) (inl (omega arith)) size t) s)
        (omega arith) (omega arith) (put_at_start-entry d q small (omega arith))

  Holds-Placed :
      (es : List (List ℕ)) (o : Option DataQueue)
      → Holds q es
      → q.tail ≤ q.queue_size
      → Placed d q o
      → HoldsNext es d o
  Holds-Placed es none h t full = tt
  Holds-Placed es _ (straight len t s) _ (before_head past room) = absurd (omega arith)
  Holds-Placed es _ (straight len t s) _ (before_end past room) = put_at_tail-straight es len s room
  Holds-Placed es _ (straight len t s) _ (at_start past over room) =
      put_at_start-wrapped es len s t over room
  Holds-Placed es _ (wrapped front b back split end mark s len past t) _ (before_head _ room) =
      subst (Holds (put_at_tail d q)) (sym (append_split es front b back d split))
        (put_at_tail-wrapped front b back end mark s len t room)
  Holds-Placed es _ (wrapped front b back split end mark s len past t) _ (before_end past' room) =
      absurd (omega arith)
  Holds-Placed es _ (wrapped front b back split end mark s len past t) _
        (at_start past' over room) =
      absurd (omega arith)

pub Holds-tail : (q : DataQueue) (es : List (List ℕ)) → Holds q es → q.tail ≤ q.queue_size
Holds-tail q es (straight len t s) = t
Holds-tail q es (wrapped front b back split end mark s len past t) = omega arith

pub Holds-empty : (q : DataQueue) → Holds q [] → q.head ≡ q.tail
Holds-empty q (straight len t s) = omega arith
Holds-empty q (wrapped [] b back split end mark s len past t) = ground arith
Holds-empty q (wrapped (f ∷ front) b back split end mark s len past t) = ground arith

pub enqueue-size :
    (h : ℕ) (d : List ℕ) (q : DataQueue)
    → (enqueue_with_barrier h d q).data_queue.queue_size ≡ q.queue_size
unfolding enqueue_with_barrier place
enqueue-size h d q = ground arith

-- A call of `enqueueWithBarrier` at a queue that holds some entries, of data and a queue whose
-- sizes are below 2^31: either it succeeds, and the queue holds the new entry behind the others,
-- whole and with none of them damaged, or it fails and has changed nothing.
pub enqueue_appends :
    (h : ℕ) (d : List ℕ) (q : DataQueue) (es : List (List ℕ))
    → Small (length d + 4)
    → Small q.queue_size
    → Holds q es
    → (((enqueue_with_barrier h d q).enqueued ≡ true)
        × Holds (enqueue_with_barrier h d q).data_queue (es ++ d ∷ []))
      ⊎ (((enqueue_with_barrier h d q).enqueued ≡ false)
          × ((enqueue_with_barrier h d q).data_queue ≡ q))
unfolding enqueue_with_barrier
enqueue_appends h d q es small size holds =
    let t = Holds-tail q es holds in
    let next = Holds-Placed d q small size es (place d q) holds t (place-Placed d q small size t) in
    elim (Option-cases (place d q)) [
      | inl e ↦ rw (enqueue_with_barrier, e) (inr (refl, refl))
      | inr (q', e) ↦ rw (enqueue_with_barrier, e) (inl (refl, subst (HoldsNext es d) e next))
    ]

-- An empty queue whose size is at least twice that of an entry takes the entry, wherever its head
-- stands, and the client is woken.
pub enqueue_empty :
    (h : ℕ) (d : List ℕ) (q : DataQueue)
    → Small (length d + 4)
    → Small q.queue_size
    → Holds q []
    → (length d + 4) * 2 ≤ q.queue_size
    → ((enqueue_with_barrier h d q).enqueued ≡ true)
      × ((enqueue_with_barrier h d q).notified ≡ true)
unfolding enqueue_with_barrier place
enqueue_empty h d q small size holds room =
    ground (arith, Holds-empty q holds, Holds-tail q [] holds)
