-- ===== src/Socket/Detach.antt =====
-- The detaching lock of a socket object: `acquireDetachingLock`, `releaseDetachingLock` and
-- `acquireDetachingLockForRemoval`, by several threads. `lockCount` starts at 1, for the attached
-- socket.
use mac_osx_network_sockets.Base.{
  ℕ, suc, ◌+◌, ◌%◌, ◌<◌, ◌≡◌, refl, Bool, true, false, ◌==◌, if◌then◌else◌, add32, sub32, arith,
}

-- The answer and the new count.
pub acquire_detaching_lock : ℕ → Bool × ℕ
acquire_detaching_lock count = if count == 0 then (false, count) else (true, add32 count 1)

-- The new count, and whether the thread in `acquireDetachingLockForRemoval` is woken.
pub release_detaching_lock : ℕ → ℕ × Bool
release_detaching_lock count = (sub32 count 1, count == 1)

-- `OSDecrementAtomic` in front of the wait of `acquireDetachingLockForRemoval`.
pub start_removal : ℕ → ℕ
start_removal count = sub32 count 1

-- The wait is over when the count is zero.
pub is_removal_over : ℕ → Bool
is_removal_over count = count == 0

-- The count, the threads that hold the lock, and whether the removal has started. The last two are
-- of the model alone.
pub record LockState : Type 0 where
  pub count : ℕ
  pub holders : ℕ
  pub removed : Bool

-- The steps of the threads; each compare-and-swap or decrement is one step.
pub data LockStep : LockState → LockState → Type 0 where
  acquires :
      (s : LockState)
      → (acquire_detaching_lock s.count).0 ≡ true
      → LockStep s
          (record s { count = (acquire_detaching_lock s.count).1; holders = s.holders + 1 })
  is_refused : (s : LockState) → (acquire_detaching_lock s.count).0 ≡ false → LockStep s s
  releases :
      (s : LockState) (n : ℕ)
      → s.holders ≡ suc n
      → LockStep s (record s { count = (release_detaching_lock s.count).0; holders = n })
  removes :
      (s : LockState)
      → s.removed ≡ false
      → LockStep s (record s { count = start_removal s.count; removed = true })

-- A lock that its threads have brought from the attached socket's to this state.
pub data IsReached : LockState → Type 0 where
  attached : IsReached (record { count = 1; holders = 0; removed = false })
  after : {s t : LockState} → IsReached s → LockStep s t → IsReached t

-- The count is that of the holders and of the attached socket.
abbrev Balanced : LockState → Type 0
Balanced s = s.count ≡ (s.holders + (if s.removed then 0 else 1)) % 4294967296

step-Balanced : {s t : LockState} → LockStep s t → Balanced s → Balanced t
unfolding acquire_detaching_lock release_detaching_lock start_removal
step-Balanced (acquires s e) b = ground arith
step-Balanced (is_refused s e) b = b
step-Balanced (releases s n e) b = ground arith
step-Balanced (removes s e) b = ground arith

reached-Balanced : {s : LockState} → IsReached s → Balanced s
reached-Balanced attached = refl
reached-Balanced (after r step) = step-Balanced step (reached-Balanced r)

-- In any state that the threads can reach, with fewer than 2^32 - 1 of them inside: the wait of the
-- removal is over exactly if the removal has started and no thread holds the lock, and exactly then
-- the lock is refused.
pub removal_waits_for_holders :
    (s : LockState)
    → IsReached s
    → s.holders < 4294967295
    → (is_removal_over s.count ≡ (if s.removed then s.holders == 0 else false))
      × ((acquire_detaching_lock s.count).0
          ≡ (if s.removed then (if s.holders == 0 then false else true) else true))
unfolding acquire_detaching_lock is_removal_over
removal_waits_for_holders s r few = let b = reached-Balanced r in ground arith
