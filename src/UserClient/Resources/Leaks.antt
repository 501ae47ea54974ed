-- ===== src/UserClient/Resources/Leaks.antt =====
-- What a user client has allocated is given back.
use mac_osx_network_sockets.Base.{
  ℕ, ◌+◌, ◌<◌, ◌≡◌, refl, Bool, true, false, ◌&&◌, Option, none, some, arith, Bool-cases, inl, inr,
}
use mac_osx_network_sockets.UserClient.Resources.{
  Allocator, Resources, NewStatus, success, Answers, with_task, start_type, start, free_type,
  free_allocated_resources, new_user_client,
}

abbrev one_if : Bool → ℕ
one_if true = 1
one_if false = 0

abbrev is_there : Option ℕ → Bool
is_there none = false
is_there (some c) = true

-- The objects that are counted as allocated are those in the slot of the socket filter; the other
-- slot is empty.
pub record IsCounted (r : Resources) : Type 0 where
  pub counted :
      r.live
      ≡ one_if (r.slots 1).has_lock
        + one_if (is_there (r.slots 1).data_queue)
        + one_if (r.slots 1).has_shared_memory
  pub no_lock : (r.slots 0).has_lock ≡ false
  pub no_queue : (r.slots 0).data_queue ≡ none
  pub no_memory : (r.slots 0).has_shared_memory ≡ false

with_task-IsCounted : IsCounted with_task
unfolding with_task
with_task-IsCounted = ground arith

start-IsCounted : (a : Allocator) (started : Bool) → IsCounted (start a started with_task).1
unfolding start start_type with_task
start-IsCounted a started = ground arith

-- Nothing of the client is left.
pub record IsFreed (r : Resources) : Type 0 where
  pub none_live : r.live ≡ 0
  pub no_lock : (t : ℕ) → t < 2 → (r.slots t).has_lock ≡ false
  pub no_queue : (t : ℕ) → t < 2 → (r.slots t).data_queue ≡ none
  pub no_memory : (t : ℕ) → t < 2 → (r.slots t).has_shared_memory ≡ false

free-IsFreed : (r : Resources) → IsCounted r → IsFreed (free_allocated_resources r)
unfolding free_allocated_resources free_type
free-IsFreed r v = record {
  none_live = ground arith;
  no_lock = λ t lt. ground arith;
  no_queue = λ t lt. ground arith;
  no_memory = λ t lt. ground arith;
}

-- The slot of the socket filter is complete.
abbrev pub IsReady : Resources → Type 0
IsReady r =
    ((r.slots 1).has_lock ≡ true)
    × (is_there (r.slots 1).data_queue ≡ true)
    × ((r.slots 1).has_shared_memory ≡ true)

-- A client that is handed out is ready, and `stop` will give back all it has; one that was made and is
-- not handed out has been released and has given back all.
abbrev pub IsClean : (is_made : Bool) → NewStatus × Option Resources × Option Resources → Type 0
IsClean is_made (success, handler, freed) =
    (is_made ≡ true)
    × ((r : Resources) × (handler ≡ some r)
        × (freed ≡ none)
        × IsReady r
        × IsFreed (free_allocated_resources r))
IsClean true (_, handler, freed) =
    (handler ≡ none) × ((r : Resources) × (freed ≡ some r) × IsFreed r)
IsClean false (_, handler, freed) = (handler ≡ none) × (freed ≡ none)

start-IsReady :
    (a : Allocator) (started : Bool)
    → (start a started with_task).0 ≡ true
    → IsReady (start a started with_task).1
unfolding start start_type with_task
start-IsReady a started h = ground arith

free-start-IsFreed :
    (a : Allocator) (started : Bool)
    → IsFreed (free_allocated_resources (start a started with_task).1)
free-start-IsFreed a started = free-IsFreed _ (start-IsCounted a started)

-- Whatever `newUserClient` is asked and answered: on success the client has its lock, its queue and
-- its memory, and `freeAllocatedResources` will give all of them back; on any error there is no
-- client in `handler`, and if one was made, it has been released, and all that it had allocated has
-- been given back.
pub new_user_client-IsClean :
    (is_cookie : Bool) (a : Answers)
    → IsClean (is_cookie && a.created) (new_user_client is_cookie a)
unfolding new_user_client
new_user_client-IsClean false a = (refl, refl)
new_user_client-IsClean true a = elim (Bool-cases a.created) [
  | inr e ↦ rw e (refl, refl)
  | inl e ↦ elim (Bool-cases a.is_initialised) [
    | inr f ↦ rw (e, f) (refl, (_, refl, free-IsFreed with_task with_task-IsCounted))
    | inl f ↦ elim (Bool-cases a.attached) [
      | inr g ↦ rw (e, f, g) (refl, (_, refl, free-IsFreed with_task with_task-IsCounted))
      | inl g ↦ elim (Bool-cases (start a.allocator a.started with_task).0) [
        | inr h ↦ rw (e, f, g, h) (refl, (_, refl, free-start-IsFreed a.allocator a.started))
        | inl h ↦
            rw (e, f, g, h)
              (
                refl,
                (
                  _,
                  refl,
                  refl,
                  start-IsReady a.allocator a.started h,
                  free-start-IsFreed a.allocator a.started,
                ),
              )
      ]
    ]
  ]
]
