-- ===== src/Client/Cleanup.antt =====
-- What `NkeSocketHandler` of NkeClient/NkeClient/main.cpp maps, it unmaps.
use mac_osx_network_sockets.Base.{
  ℕ, zero, suc, ◌+◌, ◌<◌, ◌≤◌, ◌≡◌, ◌≢◌, refl, true, List, [], ◌∷◌, ◌++◌, arith, ltb, ◌==◌, not,
  if◌then◌else◌, Bool-cases, inl, inr, ==-ne, if_lem,
}
use mac_osx_network_sockets.Pool.{buffers_number}
use mac_osx_network_sockets.UserClient.Memory.{socket_data_base}
use mac_osx_network_sockets.Client.{
  Iokit, Call, mapped, unmapped, destroyed, Handler, map_buffers, unmap_buffers, unmap_queue,
  set_up_queue, set_up, nke_socket_handler, queue_type, io_return_error,
}

-- How often the memory of a type has been mapped, and unmapped.
abbrev pub is_mapped : ℕ → Call → ℕ
is_mapped t (mapped u) = if t == u then 1 else 0
is_mapped t _ = 0

abbrev pub is_unmapped : ℕ → Call → ℕ
is_unmapped t (unmapped u a) = if t == u then 1 else 0
is_unmapped t _ = 0

abbrev pub count_mapped : ℕ → List Call → ℕ
count_mapped t [] = 0
count_mapped t (c ∷ cs) = is_mapped t c + count_mapped t cs

abbrev pub count_unmapped : ℕ → List Call → ℕ
count_unmapped t [] = 0
count_unmapped t (c ∷ cs) = is_unmapped t c + count_unmapped t cs

count_mapped-append :
    (t : ℕ) (cs ds : List Call) → count_mapped t (cs ++ ds) ≡ count_mapped t cs + count_mapped t ds
count_mapped-append t [] ds = omega arith
count_mapped-append t (c ∷ cs) ds = omega (arith, count_mapped-append t cs ds)

count_unmapped-append :
    (t : ℕ) (cs ds : List Call)
    → count_unmapped t (cs ++ ds) ≡ count_unmapped t cs + count_unmapped t ds
count_unmapped-append t [] ds = omega arith
count_unmapped-append t (c ∷ cs) ds = omega (arith, count_unmapped-append t cs ds)

-- `IOConnectMapMemory` stores an address if it succeeds, and only then.
abbrev pub MapsSoundly : Iokit → Type 0
MapsSoundly io = (t : ℕ) → ((io.map_memory t).1 == 0) ≡ not ((io.map_memory t).0 == 0)

abbrev one_unless_zero : ℕ → ℕ
one_unless_zero a = if a == 0 then 0 else 1

-- Nothing is unmapped; a buffer's memory is mapped once if there is an address for it, and never
-- otherwise; from buffer `i` on there is none.
record IsTracked (i : ℕ) (h : Handler) : Type 0 where
  buffers :
      (j : ℕ) → count_mapped (socket_data_base + j) h.calls ≡ one_unless_zero (h.shared_buffers j)
  rest : (j : ℕ) → i ≤ j → h.shared_buffers j ≡ 0
  queue : count_mapped queue_type h.calls ≡ one_unless_zero h.address
  none_unmapped : (t : ℕ) → count_unmapped t h.calls ≡ 0

map_buffers-IsTracked :
    (io : Iokit) (n i : ℕ) (h : Handler)
    → MapsSoundly io
    → h.address ≡ 0
    → IsTracked i h
    → (k : ℕ) × IsTracked k (map_buffers io n i h).1 × ((map_buffers io n i h).1.address ≡ 0)
unfolding map_buffers
map_buffers-IsTracked io zero i h sound e v = (i, v, e)
map_buffers-IsTracked io (suc n) i h sound e v =
    elim (Bool-cases ((io.map_memory (socket_data_base + i)).0 == 0)) [
      | inl ok ↦ rw ok (
          map_buffers-IsTracked io n (i + 1) _ sound e (record {
            buffers = λ j. ground (
              arith,
              v.buffers j,
              v.rest i,
              sound (socket_data_base + i),
              count_mapped-append (socket_data_base + j) h.calls
                  (mapped (socket_data_base + i) ∷ []),
            );
            rest = λ j le. ground (arith, v.rest j);
            queue = ground (
              arith,
              v.queue,
              count_mapped-append queue_type h.calls (mapped (socket_data_base + i) ∷ []),
            );
            none_unmapped = λ t. ground (
              arith,
              v.none_unmapped t,
              count_unmapped-append t h.calls (mapped (socket_data_base + i) ∷ []),
            );
          }))
      | inr bad ↦ rw bad (
        i,
        record {
          buffers = λ j. ground (arith, v.buffers j, v.rest i, sound (socket_data_base + i));
          rest = λ j le. ground (arith, v.rest j, sound (socket_data_base + i));
          queue = v.queue;
          none_unmapped = v.none_unmapped;
        },
        e,
      )
    ]

set_up_queue-IsTracked :
    (io : Iokit) (k : ℕ) (h : Handler)
    → MapsSoundly io
    → h.address ≡ 0
    → IsTracked k h
    → IsTracked k (set_up_queue io h)
unfolding set_up_queue
set_up_queue-IsTracked io k h sound e v = record {
  buffers = λ j. ground (
    arith,
    v.buffers j,
    count_mapped-append (socket_data_base + j) h.calls (mapped queue_type ∷ []),
  );
  rest = λ j le. ground (arith, v.rest j);
  queue = ground (
    arith,
    v.queue,
    sound queue_type,
    count_mapped-append queue_type h.calls (mapped queue_type ∷ []),
  );
  none_unmapped = λ t.
      ground (arith, v.none_unmapped t, count_unmapped-append t h.calls (mapped queue_type ∷ []));
}

-- What the loop that unmaps adds to the calls.
record IsUnmapped (i n : ℕ) (h t : Handler) : Type 0 where
  address : t.address ≡ h.address
  mappings : (u : ℕ) → count_mapped u t.calls ≡ count_mapped u h.calls
  buffers :
      (j : ℕ)
      → count_unmapped (socket_data_base + j) t.calls
        ≡ count_unmapped (socket_data_base + j) h.calls
          + (if ltb j i
              then 0
              else if ltb j (i + n)
              then one_unless_zero (h.shared_buffers j)
              else 0)
  queue : count_unmapped queue_type t.calls ≡ count_unmapped queue_type h.calls

unmap_buffers-IsUnmapped :
    (io : Iokit) (n i : ℕ) (h : Handler) → IsUnmapped i n h (unmap_buffers io n i h)
unfolding unmap_buffers
unmap_buffers-IsUnmapped io zero i h = record {
  address = refl;
  mappings = λ u. refl;
  buffers = λ j. ground arith;
  queue = refl;
}
unmap_buffers-IsUnmapped io (suc n) i h = elim (Bool-cases (h.shared_buffers i == 0)) [
  | inl e ↦
      let w = unmap_buffers-IsUnmapped io n (i + 1) h in
      rw e (record {
        address = w.address;
        mappings = w.mappings;
        buffers = λ j. ground (arith, w.buffers j);
        queue = w.queue;
      })
  | inr e ↦
      let a = unmapped (socket_data_base + i) (h.shared_buffers i) ∷ [] in
      let w =
        unmap_buffers-IsUnmapped io n (i + 1)
          (record h { kr = io.unmap_memory (socket_data_base + i); calls = h.calls ++ a }) in
      rw e (record {
        address = w.address;
        mappings = λ u. ground (arith, w.mappings u, count_mapped-append u h.calls a);
        buffers = λ j.
            ground (arith, w.buffers j, count_unmapped-append (socket_data_base + j) h.calls a);
        queue = ground (arith, w.queue, count_unmapped-append queue_type h.calls a);
      })
]

-- How often the handler unmaps the memory of a type is how often it has mapped it.
abbrev pub IsBalanced : ℕ → Handler → Type 0
IsBalanced t h = count_unmapped t h.calls ≡ count_mapped t h.calls

unmap_queue-counts :
    (io : Iokit) (u : ℕ) (t : Handler)
    → (count_unmapped u (unmap_queue io t).calls
        ≡ count_unmapped u t.calls + (if u == queue_type then one_unless_zero t.address else 0))
      × (count_mapped u (unmap_queue io t).calls ≡ count_mapped u t.calls)
unfolding unmap_queue
unmap_queue-counts io u t =
    let a = unmapped queue_type t.address ∷ [] in
    let d = destroyed io.port ∷ [] in
    ground (
      arith,
      count_unmapped-append u t.calls a,
      count_unmapped-append u t.calls d,
      count_unmapped-append u (t.calls ++ a) d,
      count_mapped-append u t.calls a,
      count_mapped-append u t.calls d,
      count_mapped-append u (t.calls ++ a) d,
    )

module _ (io : Iokit) (k j : ℕ) (h : Handler) (v : IsTracked k h) (lt : j < buffers_number) where
  cleaned-IsBalanced :
      (t : Handler)
      → IsUnmapped 0 buffers_number h t
      → IsBalanced (socket_data_base + j) (unmap_queue io t)
        × IsBalanced queue_type (unmap_queue io t)
  cleaned-IsBalanced t w =
      let b = socket_data_base + j in
      (
        ground (
          arith,
          unmap_queue-counts io b t,
          w.mappings b,
          w.buffers j,
          v.buffers j,
          v.none_unmapped b,
        ),
        ground (
          arith,
          unmap_queue-counts io queue_type t,
          w.mappings queue_type,
          w.queue,
          w.address,
          v.queue,
          v.none_unmapped queue_type,
        ),
      )

  cleanup-IsBalanced :
      let t = unmap_queue io (unmap_buffers io buffers_number 0 h) in
      IsBalanced (socket_data_base + j) t × IsBalanced queue_type t
  cleanup-IsBalanced = cleaned-IsBalanced _ (unmap_buffers-IsUnmapped io buffers_number 0 h)

without_port :
    (io : Iokit) (j : ℕ) (h : Handler)
    → j < buffers_number
    → h.calls ≡ []
    → let t = unmap_queue io (unmap_buffers io buffers_number 0 h) in
      (count_mapped (socket_data_base + j) t.calls ≡ 0)
      × (count_unmapped (socket_data_base + j) t.calls ≡ one_unless_zero (h.shared_buffers j))
without_port io j h lt e =
    go (unmap_buffers io buffers_number 0 h) (unmap_buffers-IsUnmapped io buffers_number 0 h)
  where
    b : ℕ
    b = socket_data_base + j

    go :
        (t : Handler)
        → IsUnmapped 0 buffers_number h t
        → (count_mapped b (unmap_queue io t).calls ≡ 0)
          × (count_unmapped b (unmap_queue io t).calls ≡ one_unless_zero (h.shared_buffers j))
    go t w = ground (arith, unmap_queue-counts io b t, w.mappings b, w.buffers j)

set_up-IsTracked :
    (io : Iokit) (h : Handler)
    → MapsSoundly io
    → h.address ≡ 0
    → h.calls ≡ []
    → (k : ℕ) × IsTracked k (set_up io h)
unfolding set_up
set_up-IsTracked io h sound e none_yet =
    let start : Handler = record h { shared_buffers = λ _. 0; kr = 0 } in
    let v : IsTracked 0 start = record {
      buffers = λ i. ground arith;
      rest = λ i le. refl;
      queue = ground arith;
      none_unmapped = λ t. ground arith;
    } in
    let (k, w, e') = map_buffers-IsTracked io buffers_number 0 start sound e v in
    (
      k,
      if_lem (IsTracked k) (map_buffers io buffers_number 0 start).0 _ _
          (set_up_queue-IsTracked io k _ sound e' w) w,
    )

-- If IOKit stores an address exactly for a memory that it maps, and there is a port: on every path
-- `NkeSocketHandler` unmaps the memory of each communication buffer, and that of the queue, as often
-- as it has mapped it.
pub handler-IsBalanced :
    (io : Iokit) (garbage : ℕ → ℕ) (j : ℕ)
    → MapsSoundly io
    → io.port ≢ 0
    → j < buffers_number
    → let t = nke_socket_handler io garbage in
      IsBalanced (socket_data_base + j) t × IsBalanced queue_type t
unfolding nke_socket_handler
handler-IsBalanced io garbage j sound there lt =
    let (k, v) =
      set_up-IsTracked io
        (record { shared_buffers = garbage; address = 0; kr = io_return_error; calls = [] }) sound
        refl refl in
    rw (==-ne io.port 0 there) (cleanup-IsBalanced io k j _ v lt)

-- Without a port, it unmaps at whatever address the memory that it has not written holds.
pub handler_without_port :
    (io : Iokit) (garbage : ℕ → ℕ) (j : ℕ)
    → io.port ≡ 0
    → j < buffers_number
    → let t = nke_socket_handler io garbage in
      (count_mapped (socket_data_base + j) t.calls ≡ 0)
      × (count_unmapped (socket_data_base + j) t.calls ≡ (if garbage j == 0 then 0 else 1))
unfolding nke_socket_handler
handler_without_port io garbage j gone lt =
    let h : Handler = record {
      shared_buffers = garbage;
      address = 0;
      kr = io_return_error;
      calls = [];
    } in
    let no_port : (io.port == 0) ≡ true = ground arith in rw no_port (without_port io j h lt refl)
