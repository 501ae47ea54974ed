-- ===== src/Queue/Layout.antt =====
-- How a data queue holds a list of entries: one stretch from the head to the tail, or one from the
-- head to a mark and another from the beginning to the tail.
use mac_osx_network_sockets.Base.{
  ℕ, ◌+◌, ◌≤◌, ◌<◌, ◌≡◌, refl, sym, ◌∙◌, ◌⊎◌, inl, List, [], ◌∷◌, ◌++◌, arith, length, subst,
}
use mac_osx_network_sockets.Queue.Bytes.{
  Memory, write_bytes, read_bytes, read_word, write_bytes-out, read_bytes-cong, read-write_bytes,
}
use mac_osx_network_sockets.Queue.{DataQueue}

-- The bytes that entries take.
abbrev pub extent : List (List ℕ) → ℕ
extent [] = 0
extent (d ∷ ds) = 4 + length d + extent ds

-- The entries stand one behind the other from an offset on.
abbrev pub IsStretch : Memory → ℕ → List (List ℕ) → Type 0
IsStretch m at [] = Unit
IsStretch m at (d ∷ ds) =
    (read_word at m ≡ length d)
    × (read_bytes (at + 4) (length d) m ≡ d)
    × IsStretch m (at + 4 + length d) ds

-- The reader who comes to `w` goes on at the beginning.
abbrev pub IsMark : ℕ → Memory → ℕ → Type 0
IsMark size m w = (size < w + 4) ⊎ ((size < w + 4 + read_word w m) × (read_word w m < 2147483648))

pub data Holds (q : DataQueue) (es : List (List ℕ)) : Type 0 where
  straight :
      q.head + extent es ≡ q.tail → q.tail ≤ q.queue_size → IsStretch q.queue q.head es → Holds q es
  wrapped :
      (front : List (List ℕ)) (d : List ℕ) (back : List (List ℕ))
      → es ≡ front ++ d ∷ back
      → q.head + extent front ≤ q.queue_size
      → IsMark q.queue_size q.queue (q.head + extent front)
      → IsStretch q.queue q.head front
      → extent (d ∷ back) ≡ q.tail
      → q.tail < q.head
      → IsStretch q.queue 0 (d ∷ back)
      → Holds q es

pub extent-append : (ds es : List (List ℕ)) → extent (ds ++ es) ≡ extent ds + extent es
extent-append [] es = omega arith
extent-append (d ∷ ds) es = omega (arith, extent-append ds es)

pub read_word-cong :
    (m m' : Memory) (at : ℕ)
    → ((i : ℕ) → at ≤ i → i < at + 4 → m i ≡ m' i)
    → read_word at m' ≡ read_word at m
read_word-cong m m' at same =
    rw
      (
        same at (omega arith) (omega arith),
        same (at + 1) (omega arith) (omega arith),
        same (at + 2) (omega arith) (omega arith),
        same (at + 3) (omega arith) (omega arith),
      )
      refl

-- A stretch only depends on the bytes it covers.
pub IsStretch-cong :
    (m m' : Memory) (at : ℕ) (ds : List (List ℕ))
    → ((i : ℕ) → at ≤ i → i < at + extent ds → m i ≡ m' i)
    → IsStretch m at ds
    → IsStretch m' at ds
IsStretch-cong m m' at [] same s = tt
IsStretch-cong m m' at (d ∷ ds) same (size, bytes, rest) = (
  read_word-cong m m' at (λ i lo hi. same i (omega arith) (omega arith)) ∙ size,
  sym (read_bytes-cong (at + 4) (length d) m m' (λ i lo hi. same i (omega arith) (omega arith)))
      ∙ bytes,
  IsStretch-cong m m' (at + 4 + length d) ds (λ i lo hi. same i (omega arith) (omega arith)) rest,
)

pub IsStretch-append :
    (m : Memory) (at : ℕ) (ds es : List (List ℕ))
    → IsStretch m at ds
    → IsStretch m (at + extent ds) es
    → IsStretch m at (ds ++ es)
IsStretch-append m at [] es s t = subst (λ k. IsStretch m k es) (omega arith) t
IsStretch-append m at (d ∷ ds) es (size, bytes, rest) t = (
  size,
  bytes,
  IsStretch-append m (at + 4 + length d) ds es rest (subst (λ k. IsStretch m k es) (omega arith) t),
)

-- A size, then data that does not touch it: an entry.
pub IsStretch-entry :
    (m : Memory) (at : ℕ) (d : List ℕ)
    → read_word at m ≡ length d
    → IsStretch (write_bytes (at + 4) d m) at (d ∷ [])
IsStretch-entry m at d size = (
  read_word-cong m (write_bytes (at + 4) d m) at
        (λ i lo hi. sym (write_bytes-out (at + 4) d m i (inl (omega arith))))
      ∙ size,
  read-write_bytes (at + 4) d m,
  tt,
)
