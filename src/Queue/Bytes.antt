-- ===== src/Queue/Bytes.antt =====
-- The memory of the data queue, byte by byte, with the 32-bit length in front of an entry.
use mac_osx_network_sockets.Base.{
  ℕ, zero, suc, ◌+◌, ◌*◌, ◌/◌, ◌%◌, ◌≤◌, ◌<◌, ◌≡◌, refl, ◌⊎◌, inl, List, [], ◌∷◌, arith, update,
  length,
}

-- What the bytes of `queue->queue` hold, by their offset.
abbrev pub Memory : Type 0
Memory = ℕ → ℕ

-- `memcpy` into the queue
unfoldable pub write_bytes : ℕ → List ℕ → Memory → Memory
write_bytes at [] m = m
write_bytes at (x ∷ xs) m = write_bytes (at + 1) xs (update m at x)

-- `memcpy` out of the queue
unfoldable pub read_bytes : ℕ → ℕ → Memory → List ℕ
read_bytes at zero m = []
read_bytes at (suc n) m = m at ∷ read_bytes (at + 1) n m

-- The bytes of a `UInt32`, the lowest first.
abbrev pub word : ℕ → List ℕ
word n = n % 256 ∷ n / 256 % 256 ∷ n / 65536 % 256 ∷ n / 16777216 % 256 ∷ []

abbrev pub read_word : ℕ → Memory → ℕ
read_word at m = m at + 256 * m (at + 1) + 65536 * m (at + 2) + 16777216 * m (at + 3)

abbrev pub write_word : ℕ → ℕ → Memory → Memory
write_word at n m = write_bytes at (word n) m

-- Two ranges of offsets do not meet.
abbrev pub Apart : ℕ → ℕ → ℕ → ℕ → Type 0
Apart a n b k = (a + n ≤ b) ⊎ (b + k ≤ a)

pub write_bytes-out :
    (at : ℕ) (xs : List ℕ) (m : Memory) (i : ℕ)
    → (i < at) ⊎ (at + length xs ≤ i)
    → write_bytes at xs m i ≡ m i
unfolding write_bytes
write_bytes-out at [] m i out = refl
write_bytes-out at (x ∷ xs) m i out = ground (arith, write_bytes-out (at + 1) xs (update m at x) i)

pub read_bytes-cong :
    (at n : ℕ) (m m' : Memory)
    → ((i : ℕ) → at ≤ i → i < at + n → m i ≡ m' i)
    → read_bytes at n m ≡ read_bytes at n m'
unfolding read_bytes
read_bytes-cong at zero m m' same = refl
read_bytes-cong at (suc n) m m' same =
    rw
      (
        same at (omega arith) (omega arith),
        read_bytes-cong (at + 1) n m m' (λ i lo hi. same i (omega arith) (omega arith)),
      )
      refl

pub read-write_bytes :
    (at : ℕ) (xs : List ℕ) (m : Memory) → read_bytes at (length xs) (write_bytes at xs m) ≡ xs
unfolding read_bytes write_bytes
read-write_bytes at [] m = refl
read-write_bytes at (x ∷ xs) m =
    rw
      (
        write_bytes-out (at + 1) xs (update m at x) at (inl (omega arith)),
        read-write_bytes (at + 1) xs (update m at x),
      )
      (ground arith)

pub read-write_word :
    (at n : ℕ) (m : Memory) → n < 4294967296 → read_word at (write_word at n m) ≡ n
unfolding write_bytes
read-write_word at n m small = ground arith
