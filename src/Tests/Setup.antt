-- ===== src/Tests/Setup.antt =====
-- The start of the extension, of a user client and of the client program, with concrete answers.
use mac_osx_network_sockets.Base.{
  ◌+◌, ◌≡◌, ◌⊎◌, refl, true, false, ◌||◌, not, none, some, [], ◌∷◌, arith, ltb, ◌==◌, if◌then◌else◌,
}
use mac_osx_network_sockets.Extension.{
  Kernel, FilterObject, Extension, init_socket_filter, start, stop,
}
use mac_osx_network_sockets.Extension.Threads.{IsStarted, cold, init_all, init_all-IsStarted}
use mac_osx_network_sockets.Extension.Life.{start_stop_lem}
use mac_osx_network_sockets.Queue.Bytes.{Memory, read_bytes}
use mac_osx_network_sockets.DataBuffer.{DataBuffer, read, write}
use mac_osx_network_sockets.DataBuffer.Copy.{read-write}
use mac_osx_network_sockets.UserClient.Resources.{
  Allocator, Answers, allocate_queue, new_user_client,
}
use mac_osx_network_sockets.UserClient.Resources.Capacity.{IsRetried, allocate_queue-IsRetried}
use mac_osx_network_sockets.UserClient.Resources.Leaks.{IsClean, new_user_client-IsClean}
use mac_osx_network_sockets.UserClient.Memory.{Memories}
use mac_osx_network_sockets.Client.{Iokit, nke_socket_handler}
use mac_osx_network_sockets.Client.Cleanup.{IsBalanced, handler-IsBalanced}

-- A kernel that grants all, one that starts no thread, and one that keeps the filter for IPv6.
abbrev granting : Kernel
granting = record {
  tag_id_find = 0;
  malloc_tag = true;
  sockets_lock = true;
  report_lock = true;
  thread_start = 0;
  with_default = true;
  register_ipv4 = 0;
  register_ipv6 = 0;
  unregister_ipv4 = 0;
  unregister_ipv6 = 0;
}

abbrev threadless : Kernel
threadless = record granting { thread_start = 5 }

abbrev keeping : Kernel
keeping = record granting { unregister_ipv6 = 16 }

init_all-IsStarted_example : IsStarted (init_all (threadless ∷ granting ∷ granting ∷ []) cold)
init_all-IsStarted_example = init_all-IsStarted (threadless ∷ granting ∷ granting ∷ [])

abbrev no_filter : FilterObject
no_filter = record { references = 0; ipv4_is_registered = false; ipv6_is_registered = false }

abbrev unloaded : Extension
unloaded = record {
  subsystem = cold;
  current_filter = none;
  socket_filter = none;
  filters = λ _. no_filter;
  next_filter = 0;
  published = false;
}

start_stop_lem_example :
    let t = stop keeping (start granting unloaded).1 in
    let o = t.filters 0 in
    (t.socket_filter ≡ none)
    × (o.references ≡ 1)
    × (t.current_filter ≡ some 0)
    × ((o.ipv4_is_registered || o.ipv6_is_registered) ≡ true)
unfolding init_socket_filter
start_stop_lem_example = start_stop_lem granting keeping unloaded refl refl refl

-- A kernel that has no room for a queue of more than 64 KB
abbrev small_queues : Allocator
small_queues = record { lock = λ _. true; queue = λ c. not (ltb 0x10000 c); descriptor = λ _. true }

allocate_queue-IsRetried_example :
    ((not (ltb 0x10000 0x100000) ≡ true)
      × (allocate_queue small_queues.queue 0x100000 ≡ (some 0x100000, 0x100000)))
    ⊎ ((not (ltb 0x10000 0x100000) ≡ false)
        × IsRetried 0x100000 (allocate_queue small_queues.queue 0x100000))
allocate_queue-IsRetried_example = allocate_queue-IsRetried small_queues.queue 0x100000

abbrev accepting : Answers
accepting = record {
  created = true;
  is_initialised = true;
  attached = true;
  started = true;
  allocator = small_queues;
}

new_user_client-IsClean_example : IsClean true (new_user_client true accepting)
new_user_client-IsClean_example = new_user_client-IsClean true accepting

abbrev counting_bytes : Memory
counting_bytes i = i

abbrev eight_bytes : DataBuffer
eight_bytes = record { size = 8; index = 0; bytes = λ _. 0; memory_descriptor = none }

read-write_example :
    let (m, c) = write 2 3 counting_bytes 40 eight_bytes in
    let (k, t) = read 2 3 (λ _. 0) 100 c in
    (m ≡ 6) × (k ≡ m) × (read_bytes 100 k t ≡ read_bytes 40 m counting_bytes)
read-write_example =
    read-write 2 3 counting_bytes (λ _. 0) 40 100 eight_bytes (omega arith) (omega arith)

abbrev memories : Memories
memories = record {
  has_filter = true;
  buffers_count = 40;
  data_buffers = λ _. eight_bytes;
  shared_memory = λ _. some 1;
}

-- All but the queue can be mapped.
abbrev queueless : Iokit
queueless = record {
  port = 7;
  map_memory = λ t. if t == 1 then (5, 0) else (0, 4096 + t);
  set_port = 0;
  unmap_memory = λ _. 0;
  dequeued = [];
}

handler-IsBalanced_example :
    let t = nke_socket_handler queueless (λ _. 3) in IsBalanced 0x1004 t × IsBalanced 1 t
handler-IsBalanced_example =
    handler-IsBalanced queueless (λ _. 3) 2 (λ t. ground arith) (ground arith) (omega arith)
