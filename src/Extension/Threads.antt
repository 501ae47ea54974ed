-- ===== src/Extension/Threads.antt =====
-- `InitSocketObjectsSubsystem` called any number of times.
use mac_osx_network_sockets.Base.{◌≡◌, true, false, List, [], ◌∷◌, arith, if◌then◌else◌}
use mac_osx_network_sockets.Extension.{Kernel, Subsystem, init_socket_objects}

-- There is one injection thread if the subsystem is initialised, and none otherwise; and then the
-- locks are there.
pub record IsStarted (s : Subsystem) : Type 0 where
  pub threads : s.injection_threads ≡ (if s.initialized then 1 else 0)
  pub sockets : s.initialized ≡ true → s.has_sockets_lock ≡ true
  pub report : s.initialized ≡ true → s.has_report_lock ≡ true

-- The static members before the first call
abbrev pub cold : Subsystem
cold = record {
  initialized = false;
  malloc_tags = 0;
  sockets_list = [];
  sockets_list_to_report = [];
  has_sockets_lock = false;
  has_report_lock = false;
  injection_threads = 0;
}

-- The calls one after the other, the kernel answering each of them in its own way.
pub init_all : List Kernel → Subsystem → Subsystem
init_all [] s = s
init_all (k ∷ ks) s = init_all ks (init_socket_objects k s).1

init-IsStarted : (k : Kernel) (s : Subsystem) → IsStarted s → IsStarted (init_socket_objects k s).1
unfolding init_socket_objects
init-IsStarted k s v = ground arith

-- A call on a subsystem that is initialised starts no thread, and keeps both lists of sockets.
init-initialized :
    (k : Kernel) (s : Subsystem)
    → s.initialized ≡ true
    → let t = (init_socket_objects k s).1 in
      (t.initialized ≡ true)
      × (t.sockets_list ≡ s.sockets_list)
      × (t.sockets_list_to_report ≡ s.sockets_list_to_report)
unfolding init_socket_objects
init-initialized k s h = ground arith

init_all-IsStarted_at : (ks : List Kernel) (s : Subsystem) → IsStarted s → IsStarted (init_all ks s)
unfolding init_all
init_all-IsStarted_at [] s v = v
init_all-IsStarted_at (k ∷ ks) s v =
    init_all-IsStarted_at ks (init_socket_objects k s).1 (init-IsStarted k s v)

-- However often `InitSocketObjectsSubsystem` is called, and whatever the kernel answers, one injection
-- thread runs if the subsystem is marked as initialised, and none otherwise; if it is marked so, both
-- locks are there.
pub init_all-IsStarted : (ks : List Kernel) → IsStarted (init_all ks cold)
init_all-IsStarted ks = init_all-IsStarted_at ks cold (ground arith)
