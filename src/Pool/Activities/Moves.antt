-- ===== src/Pool/Activities/Moves.antt =====
-- The steps of the activities that leave the free list, write behind it, put a buffer on its top and
-- take its top.
use mac_osx_network_sockets.Base.{
  ℕ, ◌≡◌, subst, true, false, some, List, ◌∷◌, arith, ◌==◌, Bool-cases, inl, inr, update, contains,
}
use mac_osx_network_sockets.Pool.FreeList.{Links-update}
use mac_osx_network_sockets.Pool.Activities.{
  Place, outside, has_next, taken, has_link, Activities, moved, owned, is_acquiring,
}
use mac_osx_network_sockets.Pool.Activities.Shared.{
  Sees, IsShared, Sees-write, Sees-put, Sees-take, at_update, owned_at_update,
}

module _ {all : List ℕ} {s : Activities} {xs : List ℕ} (inv : IsShared all s xs) (i : ℕ) {p : Place}
    (here : s.places i ≡ p) where
  open inv use {links, distinct, in_range, apart, unique, alone, sees, kept}

  -- A step that leaves the pool and what is owned.
  pub keep-IsShared :
      (q : Place)
      → owned q ≡ owned p
      → ((j : ℕ) → is_acquiring q ≡ true → is_acquiring (s.places j) ≡ true → i ≡ j)
      → Sees xs s.pool q
      → IsShared all (moved s i (q, s.pool)) xs
  keep-IsShared q o a now = record {
    links = links;
    distinct = distinct;
    in_range = in_range;
    apart = λ j b h. ground (arith, apart j b);
    unique = λ j k b h h'. ground (arith, unique j k b);
    alone = λ j k h h'. ground (arith, alone j k, a k, a j);
    sees = λ j. at_update (Sees xs s.pool) s.places i j q now (λ n. sees j);
    kept = λ b m. elim (kept b m) [
      | inl c ↦ inl c
      | inr (j, h) ↦ inr (j, owned_at_update s.places i j q b here o h)
    ];
  }

  -- A write of the owner to the entry of its buffer.
  pub write-IsShared :
      (q : Place) (b v : ℕ)
      → owned p ≡ some b
      → owned q ≡ some b
      → is_acquiring q ≡ false
      → Sees xs (record s.pool { free_buffers = update s.pool.free_buffers b v }) q
      → IsShared all
          (moved s i (q, record s.pool { free_buffers = update s.pool.free_buffers b v }))
          xs
  write-IsShared q b v o o' a now = record {
    links =
        Links-update s.pool.free_buffers s.pool.free_buffers_head b v xs (ground (arith, apart i b))
          links;
    distinct = distinct;
    in_range = in_range;
    apart = λ j c h. ground (arith, apart j c);
    unique = λ j k c h h'. ground (arith, unique j k c);
    alone = λ j k h h'. ground (arith, alone j k);
    sees = λ j.
        at_update (Sees xs (record s.pool { free_buffers = update s.pool.free_buffers b v }))
          s.places i j q now
          (λ n.
            Sees-write (s.places j) xs s.pool b v (ground (arith, apart i b))
              (λ h. absurd (n (unique i j b (ground arith) h))) (sees j));
    kept = λ c m. elim (kept c m) [
      | inl f ↦ inl f
      | inr (j, h) ↦ inr (j, owned_at_update s.places i j q c here (ground arith) h)
    ];
  }

  -- The compare-and-swap that puts a buffer on the top.
  pub put-IsShared :
      (b h : ℕ)
      → p ≡ has_link b h
      → s.pool.free_buffers_head ≡ h
      → IsShared all (moved s i (outside, record s.pool { free_buffers_head = b })) (b ∷ xs)
  put-IsShared b h e top = record {
    links = ground (arith, sees i);
    distinct = ground (arith, apart i b);
    in_range = ground (arith, apart i b);
    apart = λ j c h. ground (arith, apart j c, unique i j b);
    unique = λ j k c h h'. ground (arith, unique j k c);
    alone = λ j k h h'. ground (arith, alone j k);
    sees = λ j.
        at_update (Sees (b ∷ xs) (record s.pool { free_buffers_head = b })) s.places i j outside tt
          (λ n. Sees-put (s.places j) xs s.pool b (sees j));
    kept = λ c m. elim (kept c m) [
      | inl f ↦ inl (ground arith)
      | inr (j, o) ↦ elim (Bool-cases (i == j)) [
        | inl same ↦ inl (ground arith)
        | inr other ↦ inr (j, ground arith)
      ]
    ];
  }

-- The compare-and-swap that takes the top of the list.
pub take-IsShared :
    {all : List ℕ} {s : Activities} (x : ℕ) (xs : List ℕ) (i h n : ℕ)
    → IsShared all s (x ∷ xs)
    → s.places i ≡ has_next h n
    → s.pool.free_buffers_head ≡ h
    → IsShared all (moved s i (taken h, record s.pool { free_buffers_head = n })) xs
take-IsShared {s} x xs i h n inv here top = record {
  links = ground (arith, inv.links, seen);
  distinct = inv.distinct.1;
  in_range = inv.in_range.1;
  apart = λ j c o. ground (arith, inv.apart j c, inv.links, inv.distinct, inv.in_range);
  unique = λ j k c o o'. ground (arith, inv.unique j k c, inv.apart j c, inv.apart k c, inv.links);
  alone = λ j k o o'. ground (arith, inv.alone j k);
  sees = λ j.
      at_update (Sees xs (record s.pool { free_buffers_head = n })) s.places i j (taken h) tt
        (λ other.
          Sees-take (s.places j) x xs s.pool n
            (elim (Bool-cases (is_acquiring (s.places j))) [
              | inl a ↦ absurd (other (inv.alone i j (ground arith) a))
              | inr a ↦ a
            ])
            (inv.sees j));
  kept = λ b m. elim (inv.kept b m) [
    | inl f ↦ elim (Bool-cases (x == b)) [
      | inl top_one ↦ inr (i, ground (arith, inv.links))
      | inr other ↦ inl (ground arith)
    ]
    | inr (j, o) ↦ inr (j, ground arith)
  ];
}
  where
    seen : (contains (x ∷ xs) h ≡ true) × (s.pool.free_buffers h ≡ n)
    seen = subst (Sees (x ∷ xs) s.pool) here (inv.sees i)
