-- ===== src/UserClient/Held.antt =====
-- A client that a thread has got from `getUserClient` stays until that thread has called
-- `releaseUserClient`.
use mac_osx_network_sockets.Base.{
  ℕ, ◌<◌, ◌≡◌, refl, ap, subst, ◌≢◌, ◌⊎◌, inl, inr, true, false, Option, none, some, ◌==◌, arith,
  update, Bool-cases, ==→eq,
}
use mac_osx_network_sockets.UserClient.{
  UserClientRef, swap_in, mark_pending, swap_out, is_unused, enter, is_still_current, leave,
  release_wakes,
}
use mac_osx_network_sockets.UserClient.Threads.{
  Place, outside, registering, leaving, marked, waiting, entering, entered, has_read, confirmed,
  giving_up, holding, Moves, registers, swaps_out, finishes, confirms, returns, Threads, step,
  IsReached, start, after, inside, count_inside, count_inside-le, count_inside-zero,
  reached-Balanced,
}

-- The client that a thread relies on.
abbrev pub client_of : Place → Option ℕ
client_of outside = none
client_of (registering c) = none
client_of (leaving c) = none
client_of (marked c) = none
client_of (waiting c) = none
client_of entering = none
client_of entered = none
client_of (has_read c) = none
client_of (confirmed c) = some c
client_of giving_up = none
client_of (holding c) = some c

client_of-inside : (p : Place) (c : ℕ) → client_of p ≡ some c → inside p ≡ 1
client_of-inside (confirmed d) c e = refl
client_of-inside (holding d) c e = refl
client_of-inside _ c e = absurd (ground arith)

-- Only `unregisterUserClient` takes the client away, and then it waits.
Moves-client :
    {p q : Place} {r t : UserClientRef} (c : ℕ)
    → Moves p r q t
    → r.user_client ≡ some c
    → (t.user_client ≡ some c) ⊎ (q ≡ waiting c)
unfolding swap_in swap_out mark_pending enter leave
Moves-client c (registers d r e) h = ground arith
Moves-client c (swaps_out d r e) h = ground arith
Moves-client c _ h = inl h

abbrev LeavesUnused : Place → UserClientRef → Type 0
LeavesUnused (waiting c) r = is_unused r ≡ true
LeavesUnused _ r = Unit

Moves-LeavesUnused : {p q : Place} {r t : UserClientRef} → Moves p r q t → LeavesUnused p r
Moves-LeavesUnused (finishes c r e) = e
Moves-LeavesUnused _ = tt

-- A thread comes to rely on a client only while it is registered.
Moves-new :
    {p q : Place} {r t : UserClientRef} (c : ℕ)
    → Moves p r q t
    → client_of q ≡ some c
    → (t.user_client ≡ some c) ⊎ (client_of p ≡ some c)
unfolding is_still_current
Moves-new c (confirms d r e) h = ground arith
Moves-new c (returns d r e) h = inr h
Moves-new c _ h = ground arith

-- A thread in `unregisterUserClient` waits with the client, which it has not released yet.
abbrev pub IsWaitedFor : ℕ → Threads → ℕ → Type 0
IsWaitedFor n s c = (j : ℕ) × (j < n) × (s.places j ≡ waiting c)

abbrev pub IsAlive : ℕ → Threads → ℕ → Type 0
IsAlive n s c = (s.ref.user_client ≡ some c) ⊎ IsWaitedFor n s c

abbrev pub IsKept : ℕ → Threads → Type 0
IsKept n s = (k c : ℕ) → k < n → client_of (s.places k) ≡ some c → IsAlive n s c

unused-outside :
    (n : ℕ) (s : Threads) (k c : ℕ)
    → n < 4294967296
    → IsReached n s
    → is_unused s.ref ≡ true
    → k < n
    → client_of (s.places k) ≢ some c
unfolding is_unused
unused-outside n s k c few reached u lt e =
    let b = reached-Balanced n reached in
    let none_inside =
      count_inside-zero n k s.places lt (ground (arith, count_inside-le n s.places)) in
    absurd (omega (arith, client_of-inside (s.places k) c e))

module _ (n : ℕ) (few : n < 4294967296) (s : Threads) (reached : IsReached n s) (i : ℕ) (q : Place)
    (r : UserClientRef) (lt : i < n) (m : Moves (s.places i) s.ref q r) where
  abbrev next : Threads
  next = record { ref = r; places = update s.places i q }

  step-IsAlive :
      (k c : ℕ) → k < n → client_of (s.places k) ≡ some c → IsAlive n s c → IsAlive n next c
  step-IsAlive k c below e (inl h) = elim (Moves-client c m h) [
    | inl h' ↦ inl h'
    | inr w ↦ inr (i, lt, ground arith)
  ]
  step-IsAlive k c below e (inr (j, ltj, w)) = elim (Bool-cases (i == j)) [
    | inl same ↦
        let at_i : s.places i ≡ waiting c = rw (==→eq i j same) w in
        absurd (
          unused-outside n s k c few reached
            (subst (λ p. LeavesUnused p s.ref) at_i (Moves-LeavesUnused m)) below e)
    | inr other ↦ inr (j, ltj, ground arith)
  ]

  step-IsKept : IsKept n s → IsKept n next
  step-IsKept kept k c below e = elim (Bool-cases (i == k)) [
    | inl same ↦ elim (Moves-new c m (ground arith)) [
      | inl h ↦ inl h
      | inr h ↦ step-IsAlive i c lt h (kept i c lt h)
    ]
    | inr other ↦
        let h : client_of (s.places k) ≡ some c = ground arith in
        step-IsAlive k c below h (kept k c below h)
  ]

reached-IsKept : (n : ℕ) {s : Threads} → n < 4294967296 → IsReached n s → IsKept n s
reached-IsKept n few start = λ k c below e. absurd (ground arith)
reached-IsKept n few (after {s} reached (step i q r lt m)) =
    step-IsKept n few s reached i q r lt m (reached-IsKept n few reached)

-- In any state that fewer than 2^32 threads can reach: a client that a thread has got from
-- `getUserClient` and not given back is still registered, or a thread waits in
-- `unregisterUserClient` with it; and while any thread holds a client, no such wait ends, so that
-- no client is released.
pub held-IsAlive :
    (n : ℕ) (s : Threads) (k c : ℕ)
    → n < 4294967296
    → IsReached n s
    → k < n
    → s.places k ≡ holding c
    → IsAlive n s c × (is_unused s.ref ≡ false)
held-IsAlive n s k c few reached below h = (
  reached-IsKept n few reached k c below (ap client_of h),
  elim (Bool-cases (is_unused s.ref)) [
    | inl u ↦ absurd (unused-outside n s k c few reached u below (ap client_of h))
    | inr u ↦ u
  ],
)

-- In any state that fewer than 2^32 threads can reach: the wait of `unregisterUserClient` can end
-- exactly if no thread is between the increment and the decrement of `clientInvocations`.
wait_ends_iff_unused :
    (n : ℕ) (s : Threads)
    → n < 4294967296
    → IsReached n s
    → is_unused s.ref ≡ (count_inside n s.places == 0)
unfolding is_unused
wait_ends_iff_unused n s few reached =
    let b = reached-Balanced n reached in ground (arith, count_inside-le n s.places)

-- The last thread inside that calls `releaseUserClient`, after the client has been taken away,
-- wakes the thread in `unregisterUserClient`, whose wait is then over.
pub last_release_wakes :
    (n : ℕ) (s : Threads)
    → IsReached n s
    → s.ref.user_client ≡ none
    → count_inside n s.places ≡ 1
    → (release_wakes s.ref (leave s.ref) ≡ true) × (is_unused (leave s.ref) ≡ true)
unfolding is_unused leave release_wakes
last_release_wakes n s reached gone last = let b = reached-Balanced n reached in ground arith
