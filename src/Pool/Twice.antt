-- ===== src/Pool/Twice.antt =====
-- A second release of the same buffer by `releaseSocketDataBufferFromIO`, which takes an entry
-- UINT8_MAX for a buffer in use.
use mac_osx_network_sockets.Base.{
  ℕ, zero, suc, ◌<◌, ◌≡◌, ◌≢◌, subst, refl, sym, ap, ◌∙◌, true, List, [], ◌∷◌, ◌++◌, arith,
  contains, Below, if◌then◌else◌, ◌==◌, ltb, inl, inr, Bool-cases, length, contains-append,
  contains-Below,
}
use mac_osx_network_sockets.Pool.{
  Pool, CopyState, CopyData, buffers_number, enomem, uint8_max, copy_data_to_buffers, terminate,
  release, release_rounds, release_data_buffers,
}
use mac_osx_network_sockets.Pool.FreeList.{IsFreeList, Links, release-free}
use mac_osx_network_sockets.Pool.Init.{push_all}
use mac_osx_network_sockets.Pool.Copy.{Copies}
use mac_osx_network_sockets.Pool.Deliver.{
  Failure, Outcome, success, failure, copy_data_to_buffers-Outcome,
}

-- The links never leave the set.
abbrev pub Closed : List ℕ → Pool → Type 0
Closed s p =
    (contains s p.free_buffers_head ≡ true)
    × ((i : ℕ) → contains s i ≡ true → contains s (p.free_buffers i) ≡ true)

Closed-Links :
    (s : List ℕ) (p : Pool) (h : ℕ) (ys : List ℕ)
    → Below buffers_number s
    → Closed s p
    → contains s h ≡ true
    → ¬ Links p.free_buffers h ys
Closed-Links s p h [] b c m l = absurd (omega (arith, contains-Below buffers_number s h b m))
Closed-Links s p h (y ∷ ys) b c m l =
    Closed-Links s p (p.free_buffers y) ys b c (c.1 y (ground arith)) l.1

Closed-not-IsFreeList :
    (s : List ℕ) (p : Pool) (ys : List ℕ) → Below buffers_number s → Closed s p → ¬ IsFreeList p ys
Closed-not-IsFreeList s p ys b c f = Closed-Links s p p.free_buffers_head ys b c c.0 f.links

Closed-release :
    (s : List ℕ) (p : Pool) (i : ℕ)
    → Below buffers_number s
    → Closed s p
    → contains s i ≡ true
    → release i p ≡ p
unfolding release
Closed-release s p i b c m =
    ground (arith, c.1 i m, contains-Below buffers_number s (p.free_buffers i) b)

Closed-release_rounds :
    (s : List ℕ) (n : ℕ) (is : List ℕ) (p : Pool)
    → Below buffers_number s
    → Closed s p
    → ((i : ℕ) → contains is i ≡ true → i ≢ uint8_max → contains s i ≡ true)
    → release_rounds n is p ≡ p
unfolding release_rounds
Closed-release_rounds s zero is p b c h = refl
Closed-release_rounds s (suc n) [] p b c h = refl
Closed-release_rounds s (suc n) (i ∷ is) p b c h = elim (Bool-cases (i == uint8_max)) [
  | inl end ↦ rw end refl
  | inr more ↦
      rw (more, Closed-release s p i b c (h i (ground arith) (ground arith)))
        (Closed-release_rounds s n is p b c (λ j m. h j (ground arith)))
]

-- In a free list every entry but the bottom's links to a free buffer.
Links-next :
    (next : ℕ → ℕ) (h b : ℕ) (xs : List ℕ)
    → Links next h (xs ++ b ∷ [])
    → (contains (xs ++ b ∷ []) h ≡ true)
      × (next b ≡ uint8_max)
      × ((i : ℕ)
          → contains (xs ++ b ∷ []) i ≡ true
          → i ≢ b
          → contains (xs ++ b ∷ []) (next i) ≡ true)
Links-next next h b [] l = (ground arith, ground arith, λ i m ne. ground arith)
Links-next next h b (x ∷ xs) l =
    let (head, bottom, inner) = Links-next next (next x) b xs l.1 in
    (ground arith, bottom, λ i m ne. ground (arith, inner i))

release_bottom-Closed :
    (p : Pool) (b : ℕ) (xs : List ℕ)
    → IsFreeList p (xs ++ b ∷ [])
    → Closed (xs ++ b ∷ []) (release b p)
release_bottom-Closed p b xs f =
    let (head, bottom, inner) = Links-next p.free_buffers p.free_buffers_head b xs f.links in
    let member : contains (xs ++ b ∷ []) b ≡ true = ground (arith, contains-append xs (b ∷ []) b) in
    rw (release-free b p (contains-Below buffers_number (xs ++ b ∷ []) b f.in_range member) bottom)
      (member, λ i m. ground (arith, inner i m))

-- Releasing the buffer at the bottom of a free list once more, which the guard against a second
-- release does not stop, destroys the list: afterwards the links form no list at all.
release_bottom_twice :
    (p : Pool) (b : ℕ) (xs ys : List ℕ)
    → IsFreeList p (xs ++ b ∷ [])
    → ¬ IsFreeList (release b p) ys
release_bottom_twice p b xs ys f =
    Closed-not-IsFreeList (xs ++ b ∷ []) (release b p) ys f.in_range
      (release_bottom-Closed p b xs f)

-- A second release of any other free buffer is ignored.
release_other_twice :
    (p : Pool) (b i : ℕ) (xs : List ℕ)
    → IsFreeList p (xs ++ b ∷ [])
    → contains (xs ++ b ∷ []) i ≡ true
    → i ≢ b
    → release i p ≡ p
unfolding release
release_other_twice p b i xs f m ne =
    let (head, bottom, inner) = Links-next p.free_buffers p.free_buffers_head b xs f.links in
    ground (
      arith,
      inner i m ne,
      contains-Below buffers_number (xs ++ b ∷ []) (p.free_buffers i) f.in_range,
    )

push_all-append : (is xs ys : List ℕ) → push_all is (xs ++ ys) ≡ push_all is xs ++ ys
push_all-append [] xs ys = refl
push_all-append (i ∷ is) xs ys = push_all-append is (i ∷ xs) ys

contains-push_all :
    (is xs : List ℕ) (i : ℕ)
    → contains (push_all is xs) i ≡ (if contains is i then true else contains xs i)
contains-push_all [] xs i = refl
contains-push_all (j ∷ is) xs i = ground (arith, contains-push_all is (j ∷ xs) i)

contains-terminate :
    (is : List ℕ) (i : ℕ) → contains (terminate is) i ≡ true → i ≢ uint8_max → contains is i ≡ true
contains-terminate is i m ne = ground (arith, contains-append is (uint8_max ∷ []) i)

release_rounds-first :
    (n x : ℕ) (is : List ℕ) (p : Pool)
    → x < buffers_number
    → release_rounds (suc n) (x ∷ is) p ≡ release_rounds n is (release x p)
unfolding release_rounds
release_rounds-first n x is p lt = ground arith

failed_twice-Closed :
    (x : ℕ) (free bytes t ys : List ℕ) (c : CopyState)
    → Failure (x ∷ free) bytes c
    → x < buffers_number
    → c.indices ≡ x ∷ t
    → ¬ IsFreeList (release_data_buffers c.indices c.pool) ys
unfolding release_data_buffers
failed_twice-Closed x free bytes t ys c w lt e f =
    Closed-not-IsFreeList s (release x c.pool) ys list.in_range closed
      (subst (λ q. IsFreeList q ys) same f)
  where
    s : List ℕ
    s = push_all free [] ++ x ∷ []

    list : IsFreeList c.pool s
    list = subst (IsFreeList c.pool) (push_all-append free [] (x ∷ [])) w.list

    closed : Closed s (release x c.pool)
    closed = release_bottom-Closed c.pool x (push_all free []) list

    inside : (i : ℕ) → contains t i ≡ true → i ≢ uint8_max → contains s i ≡ true
    inside i m ne = ground (
      arith,
      contains-terminate (x ∷ free) i
          (ground (arith, ap (λ (l : List ℕ). contains l i) (sym w.indices ∙ e))) ne,
      contains-append (push_all free []) (x ∷ []) i,
      contains-push_all free [] i,
    )

    same : release_data_buffers c.indices c.pool ≡ release x c.pool
    same =
        rw (e, release_rounds-first 39 x t c.pool lt)
          (Closed-release_rounds s 39 t (release x c.pool) list.in_range closed inside)

terminate-cons : (x : ℕ) (is : List ℕ) → (t : List ℕ) × (terminate (x ∷ is) ≡ x ∷ t)
terminate-cons x is =
    (if ltb (length (x ∷ is)) buffers_number then is ++ uint8_max ∷ [] else is, ground arith)

failed_Outcome :
    (x : ℕ) (free bytes ys : List ℕ) (p : Pool) (c : CopyState)
    → x < buffers_number
    → Outcome p (x ∷ free) bytes c
    → c.error ≡ enomem
    → ¬ IsFreeList (release_data_buffers c.indices c.pool) ys
failed_Outcome x free bytes ys p c lt (success ok w) err = absurd (omega arith)
failed_Outcome x free bytes ys p c lt (failure e w) err =
    let (t, split) = terminate-cons x free in
    failed_twice-Closed x free bytes t ys c w lt (w.indices ∙ split)

-- `FltData` releases the index array of a failed `copyDataToBuffers` again, although the copy has
-- released these buffers itself. If the copy had taken any buffer before the pool ran out, the
-- second release destroys the free list: afterwards the links form no list at all.
pub failed_copy_released_twice :
    (copydata : CopyData) (bytes free ys : List ℕ) (x : ℕ) (p : Pool)
    → Copies copydata bytes
    → length bytes < 18446744073709551616
    → IsFreeList p (x ∷ free)
    → (copy_data_to_buffers copydata (length bytes) p).error ≡ enomem
    → let c = copy_data_to_buffers copydata (length bytes) p in
      ¬ IsFreeList (release_data_buffers c.indices c.pool) ys
failed_copy_released_twice copydata bytes free ys x p copies small f err =
    failed_Outcome x free bytes ys p _ f.in_range.0
      (copy_data_to_buffers-Outcome copydata bytes (x ∷ free) p copies small f) err
