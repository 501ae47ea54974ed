-- ===== src/Pool/Activities/Exclusive.antt =====
-- When at most one activity at a time is in the loop of `acquireSocketDataBufferForIO`, the free
-- list stays a list and a buffer has one owner.
use mac_osx_network_sockets.Base.{
  ℕ, ◌≡◌, refl, subst, true, false, List, [], ◌∷◌, arith, ◌==◌, Bool-cases, ==→eq, inl, inr,
  contains, lt→ltb,
}
use mac_osx_network_sockets.Pool.{Pool, buffers_number, uint8_max}
use mac_osx_network_sockets.Pool.FreeList.{Links, IsFreeList}
use mac_osx_network_sockets.Pool.Activities.{
  Place, outside, acquiring, has_head, has_next, taken, holding, releasing, has_seen, linked,
  has_link, advance, Activities, start, moved, step, run, is_acquiring, OneAtATime, is_outside,
}
use mac_osx_network_sockets.Pool.Activities.Shared.{Sees, IsShared}
use mac_osx_network_sockets.Pool.Activities.Moves.{
  keep-IsShared, write-IsShared, put-IsShared, take-IsShared,
}

Links-contains :
    (next : ℕ → ℕ) (h : ℕ) (xs : List ℕ)
    → Links next h xs
    → (h == uint8_max) ≡ false
    → contains xs h ≡ true
Links-contains next h [] l e = absurd (ground arith)
Links-contains next h (x ∷ xs) l e = ground arith

-- The free buffers after a step.
abbrev NextShared : List ℕ → Activities → Type 0
NextShared all s = (ys : List ℕ) × IsShared all s ys

taken_top-NextShared :
    {all : List ℕ} {s : Activities} (xs : List ℕ) (i h n : ℕ)
    → IsShared all s xs
    → s.places i ≡ has_next h n
    → s.pool.free_buffers_head ≡ h
    → NextShared all (moved s i (taken h, record s.pool { free_buffers_head = n }))
taken_top-NextShared {s} [] i h n inv here top =
    let seen : Sees [] s.pool (has_next h n) = subst (Sees [] s.pool) here (inv.sees i) in
    absurd (ground arith)
taken_top-NextShared (x ∷ xs) i h n inv here top = (xs, take-IsShared x xs i h n inv here top)

advance-NextShared :
    {all : List ℕ} {s : Activities} (xs : List ℕ) (i : ℕ) (p : Place)
    → IsShared all s xs
    → s.places i ≡ p
    → (is_outside p ≡ true → (j : ℕ) → is_acquiring (s.places j) ≡ false)
    → NextShared all (moved s i (advance p s.pool))
unfolding advance
advance-NextShared {s} xs i outside inv here none_in = (
  xs,
  keep-IsShared inv i here acquiring refl (λ j a b. absurd (ground (arith, none_in refl j))) tt,
)
advance-NextShared {s} xs i acquiring inv here none_in =
    elim (Bool-cases (s.pool.free_buffers_head == uint8_max)) [
      | inl e ↦ rw e (xs, keep-IsShared inv i here outside refl (λ j a b. absurd (ground arith)) tt)
      | inr e ↦ rw e (
        xs,
        keep-IsShared inv i here (has_head s.pool.free_buffers_head) refl
            (λ j a b. inv.alone i j (ground arith) b)
            (Links-contains s.pool.free_buffers s.pool.free_buffers_head xs inv.links e),
      )
    ]
advance-NextShared {s} xs i (has_head h) inv here none_in =
    let seen : contains xs h ≡ true = subst (Sees xs s.pool) here (inv.sees i) in
    (
      xs,
      keep-IsShared inv i here (has_next h (s.pool.free_buffers h)) refl
          (λ j a b. inv.alone i j (ground arith) b) (seen, refl),
    )
advance-NextShared {s} xs i (has_next h n) inv here none_in =
    elim (Bool-cases (s.pool.free_buffers_head == h)) [
      | inl e ↦ rw e (taken_top-NextShared xs i h n inv here (==→eq _ h e))
      | inr e ↦
          rw e (
            xs,
            keep-IsShared inv i here acquiring refl (λ j a b. inv.alone i j (ground arith) b) tt,
          )
    ]
advance-NextShared {s} xs i (taken h) inv here none_in =
    (xs, write-IsShared inv i here (holding h) h uint8_max refl refl refl (ground arith))
advance-NextShared {s} xs i (holding b) inv here none_in =
    let seen : s.pool.free_buffers b ≡ uint8_max = subst (Sees xs s.pool) here (inv.sees i) in
    rw (lt→ltb b buffers_number (inv.apart i b (ground arith)).0, seen)
      (xs, keep-IsShared inv i here (releasing b) refl (λ j a b. absurd (ground arith)) tt)
advance-NextShared {s} xs i (releasing b) inv here none_in = (
  xs,
  keep-IsShared inv i here (has_seen b s.pool.free_buffers_head) refl
      (λ j a b. absurd (ground arith)) tt,
)
advance-NextShared {s} xs i (has_seen b h) inv here none_in =
    (xs, write-IsShared inv i here (linked b) b h refl refl refl tt)
advance-NextShared {s} xs i (linked b) inv here none_in = (
  xs,
  keep-IsShared inv i here (has_link b (s.pool.free_buffers b)) refl
      (λ j a b. absurd (ground arith)) refl,
)
advance-NextShared {s} xs i (has_link b h) inv here none_in =
    elim (Bool-cases (s.pool.free_buffers_head == h)) [
      | inl e ↦ rw e (b ∷ xs, put-IsShared inv i here b h refl (==→eq _ h e))
      | inr e ↦
          rw e (xs, keep-IsShared inv i here (releasing b) refl (λ j a b. absurd (ground arith)) tt)
    ]

run-IsShared_at :
    (is : List ℕ) {all : List ℕ} {s : Activities} (xs : List ℕ)
    → IsShared all s xs
    → OneAtATime is s
    → NextShared all (run is s)
unfolding run step
run-IsShared_at [] xs inv one = (xs, inv)
run-IsShared_at (i ∷ is) {s} xs inv (first, later) =
    let (ys, next) = advance-NextShared xs i (s.places i) inv refl first in
    run-IsShared_at is ys next later

start-IsShared : {p : Pool} (xs : List ℕ) → IsFreeList p xs → IsShared xs (start p) xs
start-IsShared xs f = record {
  links = f.links;
  distinct = f.distinct;
  in_range = f.in_range;
  apart = λ j i h. absurd (ground arith);
  unique = λ j k i h h'. absurd (ground arith);
  alone = λ j k h h'. absurd (ground arith);
  sees = λ j. tt;
  kept = λ b m. inl m;
}

-- Any number of activities that start at a pool with a free list take any steps, any of them
-- interleaved, but none enters the loop of `acquireSocketDataBufferForIO` while another is in it.
-- Then the links form a list of distinct free buffers at every time; a buffer that an activity has
-- taken and not yet given back is not in it, and no other activity has it. No buffer is lost: each
-- buffer that was free at the start is free or has such an owner.
pub run-IsShared :
    (is : List ℕ) (p : Pool) (xs : List ℕ)
    → IsFreeList p xs
    → OneAtATime is (start p)
    → (ys : List ℕ) × IsShared xs (run is (start p)) ys
run-IsShared is p xs f one = run-IsShared_at is xs (start-IsShared xs f) one
