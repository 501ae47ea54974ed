-- ===== src/UserClient/Threads.antt =====
-- The methods of `NkeIOUserClientRef` by several threads: where a thread can stand, and the steps.
use mac_osx_network_sockets.Base.{
  ℕ, zero, suc, ◌+◌, ◌%◌, ◌≤◌, ◌<◌, ◌≡◌, refl, true, false, none, some, ◌==◌, arith, update,
  Bool-cases, ==→eq, inl, inr,
}
use mac_osx_network_sockets.UserClient.{
  UserClientRef, empty_ref, may_register, swap_in, is_current, mark_pending, swap_out, is_unused,
  may_enter, enter, is_still_current, is_null, leave,
}

pub data Place : Type 0 where
  outside : Place
  -- `registerUserClient`, before its compare-and-swap
  registering : ℕ → Place
  -- `unregisterUserClient`: it has seen its client; it has set `pendingUnregistration`; it waits
  leaving : ℕ → Place
  marked : ℕ → Place
  waiting : ℕ → Place
  -- `getUserClient`: before the increment; behind it; with the client it has read; behind the
  -- first compare-and-swap; about to return `NULL`
  entering : Place
  entered : Place
  has_read : ℕ → Place
  confirmed : ℕ → Place
  giving_up : Place
  -- behind `getUserClient`, before `releaseUserClient`
  holding : ℕ → Place

-- One step of a thread.
pub data Moves : Place → UserClientRef → Place → UserClientRef → Type 0 where
  tests_register :
      (c : ℕ) (r : UserClientRef) → may_register r ≡ true → Moves outside r (registering c) r
  registers :
      (c : ℕ) (r : UserClientRef)
      → (swap_in c r).0 ≡ true
      → Moves (registering c) r outside (swap_in c r).1
  fails_to_register :
      (c : ℕ) (r : UserClientRef) → (swap_in c r).0 ≡ false → Moves (registering c) r outside r
  sees_client : (c : ℕ) (r : UserClientRef) → is_current c r ≡ true → Moves outside r (leaving c) r
  marks : (c : ℕ) (r : UserClientRef) → Moves (leaving c) r (marked c) (mark_pending true r)
  swaps_out :
      (c : ℕ) (r : UserClientRef)
      → (swap_out c r).0 ≡ true
      → Moves (marked c) r (waiting c) (swap_out c r).1
  fails_to_unregister :
      (c : ℕ) (r : UserClientRef)
      → (swap_out c r).0 ≡ false
      → Moves (marked c) r outside (mark_pending false r)
  -- the client is released here
  finishes :
      (c : ℕ) (r : UserClientRef)
      → is_unused r ≡ true
      → Moves (waiting c) r outside (mark_pending false r)
  tests_enter : (r : UserClientRef) → may_enter r ≡ true → Moves outside r entering r
  enters : (r : UserClientRef) → Moves entering r entered (enter r)
  reads : (c : ℕ) (r : UserClientRef) → r.user_client ≡ some c → Moves entered r (has_read c) r
  reads_null : (r : UserClientRef) → r.user_client ≡ none → Moves entered r giving_up r
  confirms :
      (c : ℕ) (r : UserClientRef)
      → is_still_current c r ≡ true
      → Moves (has_read c) r (confirmed c) r
  fails_to_confirm :
      (c : ℕ) (r : UserClientRef) → is_still_current c r ≡ false → Moves (has_read c) r giving_up r
  finds_null : (c : ℕ) (r : UserClientRef) → is_null r ≡ true → Moves (confirmed c) r giving_up r
  returns : (c : ℕ) (r : UserClientRef) → is_null r ≡ false → Moves (confirmed c) r (holding c) r
  gives_up : (r : UserClientRef) → Moves giving_up r outside (leave r)
  releases : (c : ℕ) (r : UserClientRef) → Moves (holding c) r outside (leave r)

-- The reference, and where each of the threads stands.
pub record Threads : Type 0 where
  pub ref : UserClientRef
  pub places : ℕ → Place

-- A step of one of the first `n` threads.
pub data Steps (n : ℕ) (s : Threads) : Threads → Type 0 where
  step :
      (i : ℕ) (p : Place) (r : UserClientRef)
      → i < n
      → Moves (s.places i) s.ref p r
      → Steps n s (record { ref = r; places = update s.places i p })

pub data IsReached (n : ℕ) : Threads → Type 0 where
  start : IsReached n (record { ref = empty_ref; places = λ i. outside })
  after : {s t : Threads} → IsReached n s → Steps n s t → IsReached n t

-- Is the thread counted in `clientInvocations`?
abbrev pub inside : Place → ℕ
inside outside = 0
inside (registering c) = 0
inside (leaving c) = 0
inside (marked c) = 0
inside (waiting c) = 0
inside entering = 0
inside entered = 1
inside (has_read c) = 1
inside (confirmed c) = 1
inside giving_up = 1
inside (holding c) = 1

pub count_inside : ℕ → (ℕ → Place) → ℕ
count_inside zero ps = 0
count_inside (suc n) ps = count_inside n ps + inside (ps n)

count_inside-out :
    (n i : ℕ) (p : Place) (ps : ℕ → Place)
    → n ≤ i
    → count_inside n (update ps i p) ≡ count_inside n ps
unfolding count_inside
count_inside-out zero i p ps h = refl
count_inside-out (suc n) i p ps h = ground (arith, count_inside-out n i p ps)

count_inside-update :
    (n i : ℕ) (p : Place) (ps : ℕ → Place)
    → i < n
    → count_inside n (update ps i p) + inside (ps i) ≡ count_inside n ps + inside p
unfolding count_inside
count_inside-update zero i p ps h = absurd (omega arith)
count_inside-update (suc n) i p ps h =
    ground (arith, count_inside-out n i p ps, count_inside-update n i p ps)

pub inside-le : (p : Place) → inside p ≤ 1
inside-le outside = omega arith
inside-le (registering c) = omega arith
inside-le (leaving c) = omega arith
inside-le (marked c) = omega arith
inside-le (waiting c) = omega arith
inside-le entering = omega arith
inside-le entered = omega arith
inside-le (has_read c) = omega arith
inside-le (confirmed c) = omega arith
inside-le giving_up = omega arith
inside-le (holding c) = omega arith

pub count_inside-le : (n : ℕ) (ps : ℕ → Place) → count_inside n ps ≤ n
unfolding count_inside
count_inside-le zero ps = omega arith
count_inside-le (suc n) ps = omega (arith, count_inside-le n ps, inside-le (ps n))

pub count_inside-zero :
    (n i : ℕ) (ps : ℕ → Place) → i < n → count_inside n ps ≡ 0 → inside (ps i) ≡ 0
unfolding count_inside
count_inside-zero zero i ps h e = absurd (omega arith)
count_inside-zero (suc n) i ps h e = elim (Bool-cases (n == i)) [
  | inl same ↦ rw (← ==→eq n i same) (omega arith)
  | inr other ↦ count_inside-zero n i ps (ground arith) (omega arith)
]

-- The count is that of the threads inside.
abbrev pub Balanced : ℕ → Threads → Type 0
Balanced n s = s.ref.client_invocations ≡ count_inside n s.places % 4294967296

Moves-balanced :
    {p q : Place} {r t : UserClientRef} (a b : ℕ)
    → Moves p r q t
    → b + inside p ≡ a + inside q
    → r.client_invocations ≡ a % 4294967296
    → t.client_invocations ≡ b % 4294967296
unfolding swap_in swap_out mark_pending enter leave
Moves-balanced a b (tests_register c r _) e h = omega arith
Moves-balanced a b (registers c r _) e h = ground arith
Moves-balanced a b (fails_to_register c r _) e h = omega arith
Moves-balanced a b (sees_client c r _) e h = omega arith
Moves-balanced a b (marks c r) e h = omega arith
Moves-balanced a b (swaps_out c r _) e h = ground arith
Moves-balanced a b (fails_to_unregister c r _) e h = omega arith
Moves-balanced a b (finishes c r _) e h = omega arith
Moves-balanced a b (tests_enter r _) e h = omega arith
Moves-balanced a b (enters r) e h = omega arith
Moves-balanced a b (reads c r _) e h = omega arith
Moves-balanced a b (reads_null r _) e h = omega arith
Moves-balanced a b (confirms c r _) e h = omega arith
Moves-balanced a b (fails_to_confirm c r _) e h = omega arith
Moves-balanced a b (finds_null c r _) e h = omega arith
Moves-balanced a b (returns c r _) e h = omega arith
Moves-balanced a b (gives_up r) e h = omega arith
Moves-balanced a b (releases c r) e h = omega arith

count_inside-start : (n : ℕ) → count_inside n (λ i. outside) ≡ 0
unfolding count_inside
count_inside-start zero = refl
count_inside-start (suc n) = omega (arith, count_inside-start n)

pub reached-Balanced : (n : ℕ) {s : Threads} → IsReached n s → Balanced n s
reached-Balanced n start = omega (arith, count_inside-start n)
reached-Balanced n (after {s} reached (step i p r lt m)) =
    Moves-balanced (count_inside n s.places) (count_inside n (update s.places i p)) m
      (count_inside-update n i p s.places lt) (reached-Balanced n reached)
