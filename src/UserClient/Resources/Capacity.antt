-- ===== src/UserClient/Resources/Capacity.antt =====
-- How large the queue of a user client becomes.
use mac_osx_network_sockets.Base.{
  ℕ, zero, suc, ◌*◌, ◌/◌, ◌≤◌, ◌≡◌, refl, ◌⊎◌, inl, inr, Bool, true, false, Option, none, some,
  arith, ltb, Bool-cases,
}
use mac_osx_network_sockets.UserClient.Resources.{retry_queue, allocate_queue}

-- A retry yields a queue of half of what `fQueueSize` says, and of 8 KB at least; or there is none,
-- and the size has come down to 32 KB.
abbrev pub IsRetried : ℕ → Option ℕ × ℕ → Type 0
IsRetried size (none, s) = (s ≤ 0x8000) × (s ≤ size)
IsRetried size (some c, s) = (c ≡ s / 2) × (2 * s ≤ size) × (0x2000 ≤ c)

retry_queue-IsRetried :
    (fuel : ℕ) (grants : ℕ → Bool) (size : ℕ)
    → size ≤ fuel
    → IsRetried size (retry_queue fuel grants size)
unfolding retry_queue
retry_queue-IsRetried zero grants size h = omega arith
retry_queue-IsRetried (suc fuel) grants size h = elim (Bool-cases (ltb 0x8000 size)) [
  | inl large ↦ elim (Bool-cases (grants (size / 2 / 2))) [
    | inl granted ↦ rw (large, granted, retry_queue) (ground arith)
    | inr refused ↦
        let later = retry_queue-IsRetried fuel grants (size / 2) (ground arith) in
        rw (large, refused, retry_queue) (weaken (retry_queue fuel grants (size / 2)) later)
  ]
  | inr small ↦ rw (small, retry_queue) (ground arith)
]
  where
    weaken : (r : Option ℕ × ℕ) → IsRetried (size / 2) r → IsRetried size r
    weaken (none, s) (a, b) = (a, omega arith)
    weaken (some c, s) (a, b, d) = (a, omega arith, d)

-- The queue of `start` has the capacity that `fQueueSize` says, if the kernel grants it at once.
-- Otherwise the loop ends with a queue of half the capacity that `fQueueSize` then says, and of 8 KB
-- at least, or with none, at a size of 32 KB at most.
pub allocate_queue-IsRetried :
    (grants : ℕ → Bool) (size : ℕ)
    → ((grants size ≡ true) × (allocate_queue grants size ≡ (some size, size)))
      ⊎ ((grants size ≡ false) × IsRetried size (allocate_queue grants size))
unfolding allocate_queue
allocate_queue-IsRetried grants size = elim (Bool-cases (grants size)) [
  | inl granted ↦ inl (granted, rw (granted, allocate_queue) refl)
  | inr refused ↦
      inr (
        refused,
        rw (refused, allocate_queue) (retry_queue-IsRetried size grants size (omega arith)),
      )
]
