-- ===== src/Pool/Activities.antt =====
-- The loops of `acquireSocketDataBufferForIO` and `releaseSocketDataBufferFromIO` of
-- NKE/NetworkKernelExtension/NkeSocketFilter.cpp by several activities, each read, write and
-- compare-and-swap one step. An activity acquires a buffer, holds it and releases it; a thread that
-- holds several buffers is several activities.
pub mod Shared
pub mod Moves
pub mod Exclusive
pub mod Alone
use mac_osx_network_sockets.Base.{
  ℕ, ◌<◌, ◌≡◌, Bool, true, false, ◌&&◌, Option, none, some, List, [], ◌∷◌, ltb, ◌==◌, if◌then◌else◌,
  update,
}
use mac_osx_network_sockets.Pool.{Pool, buffers_number, uint8_max}

pub data Place : Type 0 where
  outside : Place
  -- `acquireSocketDataBufferForIO`: before `freeIndex` is read; with `freeIndex`; with its entry of
  -- `freeBuffers` too; behind the compare-and-swap
  acquiring : Place
  has_head : ℕ → Place
  has_next : ℕ → ℕ → Place
  taken : ℕ → Place
  -- between the two functions
  holding : ℕ → Place
  -- `releaseSocketDataBufferFromIO`: before the head is read; with the head; behind the write to
  -- `freeBuffers`; with the entry read again
  releasing : ℕ → Place
  has_seen : ℕ → ℕ → Place
  linked : ℕ → Place
  has_link : ℕ → ℕ → Place

-- One step of an activity.
pub advance : Place → Pool → Place × Pool
advance outside p = (acquiring, p)
advance acquiring p =
    if p.free_buffers_head == uint8_max then (outside, p) else (has_head p.free_buffers_head, p)
advance (has_head h) p = (has_next h (p.free_buffers h), p)
advance (has_next h n) p =
    if p.free_buffers_head == h
    then (taken h, record p { free_buffers_head = n })
    else (acquiring, p)
advance (taken h) p = (holding h, record p { free_buffers = update p.free_buffers h uint8_max })
advance (holding i) p =
    if ltb i buffers_number && (p.free_buffers i == uint8_max)
    then (releasing i, p)
    else (outside, p)
advance (releasing i) p = (has_seen i p.free_buffers_head, p)
advance (has_seen i h) p = (linked i, record p { free_buffers = update p.free_buffers i h })
advance (linked i) p = (has_link i (p.free_buffers i), p)
advance (has_link i h) p =
    if p.free_buffers_head == h
    then (outside, record p { free_buffers_head = i })
    else (releasing i, p)

-- The pool, and where each activity stands.
pub record Activities : Type 0 where
  pub pool : Pool
  pub places : ℕ → Place

abbrev pub start : Pool → Activities
start p = record { pool = p; places = λ i. outside }

abbrev pub moved : Activities → ℕ → Place × Pool → Activities
moved s i (q, p) = record { pool = p; places = update s.places i q }

unfoldable pub step : ℕ → Activities → Activities
unfolding advance
step i s = moved s i (advance (s.places i) s.pool)

-- The activities take their steps in the order of the list.
pub run : List ℕ → Activities → Activities
run [] s = s
run (i ∷ is) s = run is (step i s)

-- The buffer that the activity has for itself.
abbrev pub owned : Place → Option ℕ
owned (taken h) = some h
owned (holding h) = some h
owned (releasing i) = some i
owned (has_seen i h) = some i
owned (linked i) = some i
owned (has_link i h) = some i
owned _ = none

-- Is the activity in the loop of `acquireSocketDataBufferForIO`?
abbrev pub is_acquiring : Place → Bool
is_acquiring acquiring = true
is_acquiring (has_head h) = true
is_acquiring (has_next h n) = true
is_acquiring _ = false

abbrev pub is_outside : Place → Bool
is_outside outside = true
is_outside _ = false

-- No activity enters the loop of `acquireSocketDataBufferForIO` while another is in it.
abbrev pub OneAtATime : List ℕ → Activities → Type 0
OneAtATime [] s = Unit
OneAtATime (i ∷ is) s =
    (is_outside (s.places i) ≡ true → (j : ℕ) → is_acquiring (s.places j) ≡ false)
    × OneAtATime is (step i s)
