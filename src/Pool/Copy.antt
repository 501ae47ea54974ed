-- ===== src/Pool/Copy.antt =====
-- `copyDataToBuffers`: which buffers a packet takes, and what a client reads out of them.
use mac_osx_network_sockets.Base.{
  length-append, length-take_le, ℕ, zero, suc, ◌+◌, ◌-◌, ◌*◌, ◌%◌, ◌≤◌, ◌<◌, ◌≡◌, refl, sym, ap,
  ◌∙◌, true, false, none, some, List, [], ◌∷◌, ◌++◌, arith, update, contains, if◌then◌else◌, ◌==◌,
  ltb, inl, inr, Bool-cases, length, take, drop, append-nil, append_assoc, length-take, length-drop,
  take-append_self, take-append-drop, drop-drop, drop-length, ◌≢◌,
}
use mac_osx_network_sockets.Pool.{
  Pool, CopyState, CopyData, buffer_size, enomem, acquire, copy_data_mbuf, copy_rounds,
}
use mac_osx_network_sockets.Pool.FreeList.{IsFreeList, acquire-nil, acquire-cons}

-- The documented behaviour of `mbuf_copydata` at a packet of these bytes.
abbrev pub Copies : CopyData → List ℕ → Type 0
Copies copydata bytes =
    (off n : ℕ) → off + n ≤ length bytes → copydata off n ≡ (0, take n (drop off bytes))

-- A round takes what is left of the packet, or a full buffer.
abbrev pub chunk : ℕ → ℕ
chunk r = if ltb buffer_size r then buffer_size else r

-- How the interface describes the layout: the client reads `n` bytes out of the buffers in the
-- order of the index array, each buffer to its end before the next.
pub read_buffers : (ℕ → List ℕ) → ℕ → List ℕ → List ℕ
read_buffers contents n [] = []
read_buffers contents n (i ∷ is) =
    take (chunk n) (contents i) ++ read_buffers contents (n - chunk n) is

pub read_buffers-length :
    (contents : ℕ → List ℕ) (n : ℕ) (is : List ℕ)
    → length (read_buffers contents n is) ≤ length is * buffer_size
unfolding read_buffers
read_buffers-length contents n [] = omega arith
read_buffers-length contents n (i ∷ is) = ground (
  arith,
  length-append (take (chunk n) (contents i)) (read_buffers contents (n - chunk n) is),
  length-take_le (chunk n) (contents i),
  read_buffers-length contents (n - chunk n) is,
)

-- What the loop has done when it stops: either it took the buffers `used` off the free list and
-- they hold the rest of the packet, or it took all there were and they do not suffice.
pub data Copied (p : Pool) (free : List ℕ) (r : ℕ) (rest : List ℕ) (is : List ℕ) (c : CopyState)
    : Type 0 where
  copied :
      (used left : List ℕ)
      → free ≡ used ++ left
      → c.error ≡ 0
      → c.indices ≡ is ++ used
      → IsFreeList c.pool left
      → read_buffers c.pool.contents r used ≡ rest
      → ((i : ℕ) → contains free i ≡ false → c.pool.contents i ≡ p.contents i)
      → Copied p free r rest is c
  short :
      c.error ≡ enomem
      → c.indices ≡ is ++ free
      → IsFreeList c.pool []
      → length free * buffer_size < r
      → ((i : ℕ) → contains free i ≡ false → c.pool.contents i ≡ p.contents i)
      → Copied p free r rest is c

no_wrap : (r : ℕ) → r < 18446744073709551616 → (0 + r) % 18446744073709551616 ≡ r
no_wrap r h = omega arith

chunk-le : (r : ℕ) → chunk r ≤ r
chunk-le r = ground arith

copy_data_mbuf-chunk :
    (copydata : CopyData) (bytes : List ℕ) (i r off : ℕ) (q : Pool)
    → Copies copydata bytes
    → off + r ≤ length bytes
    → length bytes < 18446744073709551616
    → copy_data_mbuf copydata i 0 r off q ≡ (
      0,
      chunk r,
      record q {
        contents = update q.contents i (
            take (chunk r) (drop off bytes)
            ++ drop (length (take (chunk r) (drop off bytes))) (q.contents i));
      },
    )
unfolding copy_data_mbuf
copy_data_mbuf-chunk copydata bytes i r off q h fits small =
    rw (no_wrap r (omega arith), h off (chunk r) (omega (arith, chunk-le r)))

take-append_of_length : (n : ℕ) (xs ys : List ℕ) → length xs ≡ n → take n (xs ++ ys) ≡ xs
take-append_of_length n xs ys e = rw (← e) (take-append_self xs ys)

join :
    (n off : ℕ) (bytes junk held : List ℕ)
    → length (take n (drop off bytes)) ≡ n
    → held ≡ take n (drop off bytes) ++ junk
    → take n held ++ drop (off + n) bytes ≡ drop off bytes
join n off bytes junk held size w =
    rw (w, take-append_of_length n (take n (drop off bytes)) junk size, ← drop-drop n off bytes)
      (take-append-drop n (drop off bytes))

-- One round that takes buffer `x` and copies into it, and then the rounds after it.
Copied-cons :
    (bytes : List ℕ) (p q : Pool) (x : ℕ) (free : List ℕ) (off r : ℕ) (is : List ℕ) (c : CopyState)
    → contains free x ≡ false
    → off + r ≡ length bytes
    → r ≢ 0
    → ((i : ℕ) → x ≢ i → q.contents i ≡ p.contents i)
    → q.contents x
      ≡ take (chunk r) (drop off bytes)
        ++ drop (length (take (chunk r) (drop off bytes))) (p.contents x)
    → Copied q free (r - chunk r) (drop (off + chunk r) bytes) (is ++ x ∷ []) c
    → Copied p (x ∷ free) r (drop off bytes) is c
unfolding read_buffers
Copied-cons bytes p q x free off r is c fresh e nz other here
      (copied used left split ok ids list read same) =
    copied (x ∷ used) left (ap (◌∷◌ x) split) ok (ids ∙ append_assoc is (x ∷ []) used) list
      (whole (c.pool.contents x) (same x fresh ∙ here)) (λ i d. ground (arith, same i, other i))
  where
    n : ℕ
    n = chunk r

    piece : List ℕ
    piece = take (chunk r) (drop off bytes)

    size : length piece ≡ n
    size = length-take n (drop off bytes) (omega (arith, length-drop off bytes, chunk-le r))

    whole :
        (held : List ℕ)
        → held ≡ piece ++ drop (length piece) (p.contents x)
        → take n held ++ read_buffers c.pool.contents (r - n) used ≡ drop off bytes
    whole held w = rw read (join n off bytes (drop (length piece) (p.contents x)) held size w)
Copied-cons bytes p q x free off r is c fresh e nz other here (short err ids list few same) =
    short err (ids ∙ append_assoc is (x ∷ []) free) list (ground arith)
      (λ i d. ground (arith, same i, other i))

module _ (copydata : CopyData) (fuel r off : ℕ) (is : List ℕ) (p q : Pool) where
  copy_rounds-none :
      (r == 0) ≡ false
      → acquire p ≡ (none, q)
      → copy_rounds copydata (suc fuel) r off is p
        ≡ record { error = enomem; pool = q; indices = is }
  unfolding copy_rounds
  copy_rounds-none more a = ground arith

  copy_rounds-some :
      (x n : ℕ) (t : Pool)
      → (r == 0) ≡ false
      → acquire p ≡ (some x, q)
      → copy_data_mbuf copydata x 0 r off q ≡ (0, n, t)
      → copy_rounds copydata (suc fuel) r off is p
        ≡ copy_rounds copydata fuel (r - n) (off + n) (is ++ x ∷ []) t
  unfolding copy_rounds
  copy_rounds-some x n t more a c = ground arith

  copy_rounds-done :
      (r == 0) ≡ true
      → copy_rounds copydata (suc fuel) r off is p ≡ record { error = 0; pool = p; indices = is }
  unfolding copy_rounds
  copy_rounds-done done = rw (done, copy_rounds)

with_contents :
    {p : Pool} (xs : List ℕ) (c : ℕ → List ℕ)
    → IsFreeList p xs
    → IsFreeList (record p { contents = c }) xs
with_contents xs c f = record {
  links = f.links;
  distinct = f.distinct;
  in_range = f.in_range;
  marked = f.marked;
}

module _ (copydata : CopyData) (bytes : List ℕ) (copies : Copies copydata bytes)
    (small : length bytes < 18446744073709551616) where
  copy_rounds-Copied_done :
      (fuel r off : ℕ) (is : List ℕ) (p : Pool) (free : List ℕ)
      → (r == 0) ≡ true
      → off + r ≡ length bytes
      → IsFreeList p free
      → Copied p free r (drop off bytes) is (copy_rounds copydata (suc fuel) r off is p)
  unfolding read_buffers
  copy_rounds-Copied_done fuel r off is p free done e f =
      rw (copy_rounds-done copydata fuel r off is p p done) (
        copied [] free refl refl (sym (append-nil is)) f
          (sym (drop-length off bytes (ground arith))) (λ i c. refl))

  pub copy_rounds-Copied :
      (fuel r off : ℕ) (is : List ℕ) (p : Pool) (free : List ℕ)
      → r < fuel
      → off + r ≡ length bytes
      → IsFreeList p free
      → Copied p free r (drop off bytes) is (copy_rounds copydata fuel r off is p)
  unfolding read_buffers
  copy_rounds-Copied zero r off is p free lt e f = absurd (omega arith)
  copy_rounds-Copied (suc fuel) r off is p [] lt e f = elim (Bool-cases (r == 0)) [
    | inl done ↦ copy_rounds-Copied_done fuel r off is p [] done e f
    | inr more ↦
        rw (copy_rounds-none copydata fuel r off is p p more (acquire-nil f))
          (short refl (sym (append-nil is)) f (ground arith) (λ i c. refl))
  ]
  copy_rounds-Copied (suc fuel) r off is p (x ∷ xs) lt e f = elim (Bool-cases (r == 0)) [
    | inl done ↦ copy_rounds-Copied_done fuel r off is p (x ∷ xs) done e f
    | inr more ↦
        let (q, got, left, same) = acquire-cons x xs f in
        rw
          (copy_rounds-some copydata fuel r off is p q x (chunk r) _ more got
            (copy_data_mbuf-chunk copydata bytes x r off q copies (omega arith) small))
          (Copied-cons bytes p _ x xs off r is _ f.distinct.0 e (ground arith)
            (λ i ne. ground (arith, ap (λ (c : ℕ → List ℕ). c i) same))
            (ground (arith, ap (λ (c : ℕ → List ℕ). c x) same))
            (copy_rounds-Copied fuel (r - chunk r) (off + chunk r) (is ++ x ∷ []) _ xs
              (ground arith) (omega (arith, chunk-le r)) (with_contents xs _ left)))
  ]
