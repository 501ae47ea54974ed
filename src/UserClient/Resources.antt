-- ===== src/UserClient/Resources.antt =====
-- What a user client allocates: `withTask`, `start`, `freeAllocatedResources` and `free` of
-- NKE/NetworkKernelExtension/NkeIOUserClient.cpp, and `newUserClient` of NetworkKernelExtension.cpp.
pub mod Capacity
pub mod Leaks
use mac_osx_network_sockets.Base.{
  ℕ, zero, suc, ◌+◌, ◌-◌, ◌/◌, Bool, true, false, Option, none, some, List, [], ◌∷◌, ◌++◌, ltb,
  ◌==◌, if◌then◌else◌, update,
}
use mac_osx_network_sockets.UserClient.Session.{notify_type_max}

-- The answers of `IOLockAlloc` for a type, of `IODataQueue::withCapacity` for a capacity, and of
-- `getMemoryDescriptor` for a type.
pub record Allocator : Type 0 where
  pub lock : ℕ → Bool
  pub queue : ℕ → Bool
  pub descriptor : ℕ → Bool

-- `fLock`, `fDataQueue` with its capacity, `fSharedMemory` and `fQueueSize` of a type
pub record Slot : Type 0 where
  pub has_lock : Bool
  pub data_queue : Option ℕ
  pub has_shared_memory : Bool
  pub queue_size : ℕ

-- The slots of the types, how many objects are allocated, and the types whose queues have got
-- `kt_NkeStopListeningToMessages`.
pub record Resources : Type 0 where
  pub slots : ℕ → Slot
  pub live : ℕ
  pub stopped : List ℕ

abbrev with_slot : ℕ → Slot → ℕ → Resources → Resources
with_slot t s n r = record r { slots = update r.slots t s; live = n }

abbrev empty_slot : ℕ → Slot
empty_slot size = record {
  has_lock = false;
  data_queue = none;
  has_shared_memory = false;
  queue_size = size;
}

-- `withTask`, when it does not return `NULL`
pub with_task : Resources
with_task = record {
  slots = update (λ _. empty_slot 0x80000) 1 (empty_slot 0x100000);
  live = 0;
  stopped = [];
}

-- The `while` of `start` that asks for smaller queues: the queue and `fQueueSize`. A round at least
-- halves the size, which is the fuel.
pub retry_queue : ℕ → (ℕ → Bool) → ℕ → Option ℕ × ℕ
retry_queue zero grants size = (none, size)
retry_queue (suc fuel) grants size = elim (ltb 0x8000 size) [
  | false ↦ (none, size)
  | true ↦ elim (grants (size / 2 / 2)) [
    | true ↦ (some (size / 2 / 2), size / 2)
    | false ↦ retry_queue fuel grants (size / 2)
  ]
]

pub allocate_queue : (ℕ → Bool) → ℕ → Option ℕ × ℕ
unfolding retry_queue
allocate_queue grants size = elim (grants size) [
  | true ↦ (some size, size)
  | false ↦ retry_queue size grants size
]

-- A round of the loop of `start`, for a type that has resources
pub start_type : Allocator → ℕ → Resources → Bool × Resources
start_type a t r =
    let s = r.slots t in
    if a.lock t
    then (let (queue, size) = allocate_queue a.queue s.queue_size in
        elim queue [
          | none ↦
              (false, with_slot t (record s { has_lock = true; queue_size = size }) (r.live + 1) r)
          | some c ↦
              if a.descriptor t
              then (
                true,
                with_slot t
                    (record {
                      has_lock = true;
                      data_queue = some c;
                      has_shared_memory = true;
                      queue_size = size;
                    })
                    (r.live + 3) r,
              )
              else (
                false,
                with_slot t (record s { has_lock = true; data_queue = some c; queue_size = size })
                    (r.live + 2) r,
              )
        ])
    else (false, r)

-- The loop, with `n` rounds left
start_rounds : Allocator → ℕ → ℕ → Resources → Bool × Resources
start_rounds a zero t r = (true, r)
start_rounds a (suc n) t r =
    let (started, s) = if t == 0 then (true, r) else start_type a t r in
    if started then start_rounds a n (t + 1) s else (false, s)

-- `start`; `started` is the answer of `super::start( provider )`.
pub start : Allocator → Bool → Resources → Bool × Resources
unfolding start_rounds start_type
start a started r = if started then start_rounds a notify_type_max 0 r else (false, r)

abbrev count : Bool → ℕ
count true = 1
count false = 0

abbrev is_some : Option ℕ → Bool
is_some none = false
is_some (some c) = true

-- A round of the loop of `freeAllocatedResources`
pub free_type : ℕ → Resources → Resources
free_type t r =
    let s = r.slots t in
    let n = count s.has_shared_memory + count (is_some s.data_queue) + count s.has_lock in
    record (with_slot t (empty_slot s.queue_size) (r.live - n) r) {
      stopped = if is_some s.data_queue then r.stopped ++ t ∷ [] else r.stopped;
    }

free_rounds : ℕ → ℕ → Resources → Resources
free_rounds zero t r = r
free_rounds (suc n) t r = free_rounds n (t + 1) (free_type t r)

-- `freeAllocatedResources`, which `stop` and `free` call
pub free_allocated_resources : Resources → Resources
unfolding free_rounds free_type
free_allocated_resources r = free_rounds notify_type_max 0 r

pub data NewStatus : Type 0 where
  success bad_argument no_resources : NewStatus

-- What `newUserClient` is answered, beside the allocations of `start`.
pub record Answers : Type 0 where
  pub created : Bool
  pub is_initialised : Bool
  pub attached : Bool
  pub started : Bool
  pub allocator : Allocator

-- `newUserClient`: the status, the client in `handler`, and the resources of a client that has been
-- freed, whose last reference `release` gives back.
pub new_user_client : Bool → Answers → NewStatus × Option Resources × Option Resources
unfolding start free_allocated_resources with_task
new_user_client is_cookie a =
    if is_cookie
    then (if a.created
        then (if a.is_initialised
            then (if a.attached
                then (let (started, r) = start a.allocator a.started with_task in
                    if started
                    then (success, some r, none)
                    else (no_resources, none, some (free_allocated_resources r)))
                else (no_resources, none, some (free_allocated_resources with_task)))
            else (no_resources, none, some (free_allocated_resources with_task)))
        else (no_resources, none, none))
    else (bad_argument, none, none)
