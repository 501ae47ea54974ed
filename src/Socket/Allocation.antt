-- ===== src/Socket/Allocation.antt =====
-- How a socket object is allocated and freed: `new`, `init` and `free` of NkeSocketObject in
-- NKE/NetworkKernelExtension/NkeSocketObject.cpp, and the beginning of its `withSocket`. `with_socket`
-- of Filter/Life has the rest; there the answers of `new` and of `init` are given.
use mac_osx_network_sockets.Base.{
  ℕ, ◌+◌, ◌-◌, ◌<◌, ◌≡◌, ◌⊎◌, Bool, true, false, ◌&&◌, Option, none, some, arith, if◌then◌else◌,
  add32, sub32,
}
use mac_osx_network_sockets.Socket.Counters.{one_if}

-- The answers of `new`, `super::init`, and of `IORWLockAlloc` and `IOLockAlloc` for the two locks.
record Granted : Type 0 where
  object : Bool
  super_init : Bool
  rw_lock : Bool
  injection_mutex : Bool

-- `rwLock` and `injectionMutex`: are they there?
record Locks : Type 0 where
  has_rw_lock : Bool
  has_injection_mutex : Bool

-- `SocketObjectsCounter`, and how many objects and locks are allocated.
record Allocated : Type 0 where
  socket_objects_counter : ℕ
  live : ℕ

-- The memory of an `OSObject` is zeroed.
abbrev no_locks : Locks
no_locks = record { has_rw_lock = false; has_injection_mutex = false }

abbrev both_locks : Locks
both_locks = record { has_rw_lock = true; has_injection_mutex = true }

abbrev allocate : Allocated → Allocated
allocate h = record h { live = h.live + 1 }

-- `init`
init : Granted → Locks → Allocated → Bool × Locks × Allocated
init g l h =
    if g.super_init
    then (if g.rw_lock
        then (if g.injection_mutex
            then (
              true,
              record { has_rw_lock = true; has_injection_mutex = true },
              allocate (allocate h),
            )
            else (false, record l { has_rw_lock = true }, allocate h))
        else (false, l, h))
    else (false, l, h)

-- `free`, which the last `release` calls
free : Locks → Allocated → Allocated
free l h = record {
  socket_objects_counter = sub32 h.socket_objects_counter 1;
  live = h.live - one_if l.has_injection_mutex - one_if l.has_rw_lock - 1;
}

-- `withSocket` as far as `init` and, if that fails, the `release` of the only reference
new_socket_object : Granted → Allocated → Option Locks × Allocated
unfolding init free
new_socket_object g h =
    if g.object
    then (let counted = record (allocate h) {
      socket_objects_counter = add32 h.socket_objects_counter 1;
    } in
        let (ok, l, after) = init g no_locks counted in
        if ok then (some l, after) else (none, free l after))
    else (none, h)

abbrev is_all_granted : Granted → Bool
is_all_granted g = g.object && g.super_init && g.rw_lock && g.injection_mutex

-- The fields are those of `k`.
abbrev IsSame : Allocated → Allocated → Type 0
IsSame h k = (h.socket_objects_counter ≡ k.socket_objects_counter) × (h.live ≡ k.live)

-- If `new` and all that `init` asks for is granted, `withSocket` has a counted object with both
-- locks, and `free` of it gives back all and takes the count back. Otherwise it has no object, and
-- nothing is left allocated or counted. The count is that of a 32-bit word.
new_socket_object-free :
    (g : Granted) (h : Allocated)
    → h.socket_objects_counter < 4294967296
    → let (o, k) = new_socket_object g h in
      ((is_all_granted g ≡ true)
        × (o ≡ some both_locks)
        × (k.live ≡ h.live + 3)
        × (k.socket_objects_counter ≡ add32 h.socket_objects_counter 1)
        × IsSame (free both_locks k) h)
      ⊎ ((is_all_granted g ≡ false) × (o ≡ none) × IsSame k h)
unfolding new_socket_object free init
new_socket_object-free g h bound = ground arith
