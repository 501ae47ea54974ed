-- ===== src/Pool/FreeList.antt =====
-- The free list as a stack of distinct indices: `freeBuffersHead` and `freeBuffers` link them.
use mac_osx_network_sockets.Base.{
  ℕ, ◌<◌, ◌≡◌, refl, false, none, some, List, [], ◌∷◌, arith, update, contains, Distinct, Below,
  ==-self, length, ◌≤◌, length-le_of_Distinct,
}
use mac_osx_network_sockets.Pool.{Pool, buffers_number, uint8_max, acquire, release}

-- Following `next` from `h` meets exactly these indices, and then the end.
abbrev pub Links : (ℕ → ℕ) → ℕ → List ℕ → Type 0
Links next h [] = h ≡ uint8_max
Links next h (x ∷ xs) = (h ≡ x) × Links next (next x) xs

-- `xs` are the free buffers, the first to be acquired in front; every other buffer bears the mark
-- of a buffer in use.
pub record IsFreeList (p : Pool) (xs : List ℕ) : Type 0 where
  pub links : Links p.free_buffers p.free_buffers_head xs
  pub distinct : Distinct xs
  pub in_range : Below buffers_number xs
  pub marked : (i : ℕ) → contains xs i ≡ false → p.free_buffers i ≡ uint8_max

pub Links-update :
    (next : ℕ → ℕ) (h i v : ℕ) (xs : List ℕ)
    → contains xs i ≡ false
    → Links next h xs
    → Links (update next i v) h xs
Links-update next h i v [] c l = l
Links-update next h i v (x ∷ xs) c l = ground (arith, Links-update next (next x) i v xs)

-- On an empty free list there is no buffer, and otherwise the top of the list is taken off it.
pub acquire-nil : {p : Pool} → IsFreeList p [] → acquire p ≡ (none, p)
unfolding acquire
acquire-nil f = ground arith

pub acquire-head :
    (p : Pool)
    → p.free_buffers_head < buffers_number
    → acquire p ≡ (
      some p.free_buffers_head,
      record p {
        free_buffers = update p.free_buffers p.free_buffers_head uint8_max;
        free_buffers_head = p.free_buffers p.free_buffers_head;
      },
    )
unfolding acquire
acquire-head p h = ground arith

pub acquire-cons :
    {p : Pool} (x : ℕ) (xs : List ℕ)
    → IsFreeList p (x ∷ xs)
    → (q : Pool) × (acquire p ≡ (some x, q)) × IsFreeList q xs × (q.contents ≡ p.contents)
acquire-cons {p} x xs f = (
  record p {
    free_buffers = update p.free_buffers x uint8_max;
    free_buffers_head = p.free_buffers x;
  },
  rw (acquire-head p (ground arith)) (ground arith),
  record {
    links = Links-update p.free_buffers (p.free_buffers x) x uint8_max xs f.distinct.0 f.links.1;
    distinct = f.distinct.1;
    in_range = f.in_range.1;
    marked = λ i c. ground (arith, f.marked i);
  },
  refl,
)

pub release-free :
    (i : ℕ) (p : Pool)
    → i < buffers_number
    → p.free_buffers i ≡ uint8_max
    → release i p ≡ record p {
      free_buffers = update p.free_buffers i p.free_buffers_head;
      free_buffers_head = i;
    }
unfolding release
release-free i p lt m = ground arith

pub release-IsFreeList :
    {p : Pool} (i : ℕ) (xs : List ℕ)
    → IsFreeList p xs
    → i < buffers_number
    → contains xs i ≡ false
    → IsFreeList (release i p) (i ∷ xs)
release-IsFreeList {p} i xs f lt c = rw (release-free i p lt (f.marked i c)) (record {
  links = (
    refl,
    rw (==-self i)
        (Links-update p.free_buffers p.free_buffers_head i p.free_buffers_head xs c f.links),
  );
  distinct = (c, f.distinct);
  in_range = (lt, f.in_range);
  marked = λ j d. ground (arith, f.marked j);
})

pub length-IsFreeList : {p : Pool} (xs : List ℕ) → IsFreeList p xs → length xs ≤ buffers_number
length-IsFreeList xs f = length-le_of_Distinct buffers_number xs f.distinct f.in_range
