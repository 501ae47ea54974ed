-- ===== src/Pool/Activities/Shared.antt =====
-- What the activities of `acquireSocketDataBufferForIO` and `releaseSocketDataBufferFromIO` have read
-- and own, next to the free list.
use mac_osx_network_sockets.Base.{
  ℕ, ◌<◌, ◌≡◌, sym, subst, ◌≢◌, true, false, some, List, ◌∷◌, arith, ◌==◌, Bool-cases, ==→eq, ◌⊎◌,
  inl, inr, update, contains, Distinct, Below,
}
use mac_osx_network_sockets.Pool.{Pool, buffers_number, uint8_max}
use mac_osx_network_sockets.Pool.FreeList.{Links}
use mac_osx_network_sockets.Pool.Activities.{
  Place, has_head, has_next, holding, has_link, Activities, owned, is_acquiring,
}

-- What an activity has read and what is still so, with the free buffers `xs`.
abbrev pub Sees : List ℕ → Pool → Place → Type 0
Sees xs p (has_head h) = contains xs h ≡ true
Sees xs p (has_next h n) = (contains xs h ≡ true) × (p.free_buffers h ≡ n)
Sees xs p (holding i) = p.free_buffers i ≡ uint8_max
Sees xs p (has_link i h) = p.free_buffers i ≡ h
Sees xs p _ = Unit

-- The buffer is in the list of the free buffers, or an activity has it.
abbrev pub HasHome : Activities → List ℕ → ℕ → Type 0
HasHome s xs b = (contains xs b ≡ true) ⊎ ((j : ℕ) × (owned (s.places j) ≡ some b))

-- `xs` are the free buffers; `all` were free at the start.
pub record IsShared (all : List ℕ) (s : Activities) (xs : List ℕ) : Type 0 where
  pub links : Links s.pool.free_buffers s.pool.free_buffers_head xs
  pub distinct : Distinct xs
  pub in_range : Below buffers_number xs
  pub apart :
      (j i : ℕ) → owned (s.places j) ≡ some i → (i < buffers_number) × (contains xs i ≡ false)
  pub unique : (j k i : ℕ) → owned (s.places j) ≡ some i → owned (s.places k) ≡ some i → j ≡ k
  pub alone :
      (j k : ℕ) → is_acquiring (s.places j) ≡ true → is_acquiring (s.places k) ≡ true → j ≡ k
  pub sees : (j : ℕ) → Sees xs s.pool (s.places j)
  pub kept : (b : ℕ) → contains all b ≡ true → HasHome s xs b

-- A write to a buffer that the activity neither has nor sees in the list.
pub Sees-write :
    (q : Place) (xs : List ℕ) (p : Pool) (b v : ℕ)
    → contains xs b ≡ false
    → owned q ≢ some b
    → Sees xs p q
    → Sees xs (record p { free_buffers = update p.free_buffers b v }) q
Sees-write (has_head h) xs p b v out other h' = h'
Sees-write (has_next h n) xs p b v out other h' = ground arith
Sees-write (holding i) xs p b v out other h' = ground arith
Sees-write (has_link i h) xs p b v out other h' = ground arith
Sees-write _ xs p b v out other h' = ground arith

pub Sees-put :
    (q : Place) (xs : List ℕ) (p : Pool) (b : ℕ)
    → Sees xs p q
    → Sees (b ∷ xs) (record p { free_buffers_head = b }) q
Sees-put (has_head h) xs p b h' = ground arith
Sees-put (has_next h n) xs p b h' = ground arith
Sees-put _ xs p b h' = ground arith

pub Sees-take :
    (q : Place) (x : ℕ) (xs : List ℕ) (p : Pool) (n : ℕ)
    → is_acquiring q ≡ false
    → Sees (x ∷ xs) p q
    → Sees xs (record p { free_buffers_head = n }) q
Sees-take (has_head h) x xs p n a h' = absurd (ground arith)
Sees-take (has_next h m) x xs p n a h' = absurd (ground arith)
Sees-take _ x xs p n a h' = ground arith

-- What holds of the place of the mover, and of the places of the others, holds of every place.
pub at_update :
    (P : Place → Type 0) (places : ℕ → Place) (i j : ℕ) (q : Place)
    → P q
    → (i ≢ j → P (places j))
    → P (update places i q j)
at_update P places i j q here others = elim (Bool-cases (i == j)) [
  | inl e ↦ rw e here
  | inr e ↦ rw e (others (ground arith))
]

-- A step that leaves what the mover owns leaves what each one owns.
pub owned_at_update :
    (places : ℕ → Place) (i j : ℕ) {p : Place} (q : Place) (b : ℕ)
    → places i ≡ p
    → owned q ≡ owned p
    → owned (places j) ≡ some b
    → owned (update places i q j) ≡ some b
owned_at_update places i j {p} q b here same o = elim (Bool-cases (i == j)) [
  | inl e ↦
      let at_i : owned (places i) ≡ some b =
        subst (λ k. owned (places k) ≡ some b) (sym (==→eq i j e)) o in
      rw (e, same, sym here) at_i
  | inr e ↦ rw e o
]
