-- ===== src/Pool/Init.antt =====
-- The pool that `NkeSocketFilter::withDefault` sets up, and `releaseDataBuffers` on it.
use mac_osx_network_sockets.Base.{
  ltb, subst, append-nil, length-le_of_Distinct, ◌⊎◌, ℕ, zero, suc, ◌+◌, ◌≤◌, ◌<◌, ◌≡◌, refl, Bool,
  false, List, [], ◌∷◌, ◌++◌, arith, update, contains, Distinct, Below, inl, inr, Bool-cases,
  length,
}
use mac_osx_network_sockets.Pool.{
  Pool, buffers_number, uint8_max, release, create_buffers, with_default, release_rounds,
  release_data_buffers, terminate,
}
use mac_osx_network_sockets.Pool.FreeList.{IsFreeList, Links-update, release-IsFreeList}

Below-mono : (m n : ℕ) (xs : List ℕ) → m ≤ n → Below m xs → Below n xs
Below-mono m n [] h b = tt
Below-mono m n (x ∷ xs) h b = (omega arith, Below-mono m n xs h b.1)

Below-fresh : (n : ℕ) (xs : List ℕ) → Below n xs → contains xs n ≡ false
Below-fresh n [] b = refl
Below-fresh n (x ∷ xs) b = ground (arith, Below-fresh n xs)

-- The free list holds every buffer of the array.
abbrev pub AllFree : Pool → List ℕ → Type 0
AllFree p xs = IsFreeList p xs × (length xs ≡ p.buffers_count) × Below p.buffers_count xs

push_created :
    (i : ℕ) (p : Pool) (xs : List ℕ)
    → i < buffers_number
    → p.buffers_count ≡ i
    → AllFree p xs
    → AllFree
        (record p {
          buffers_count = p.buffers_count + 1;
          free_buffers = update p.free_buffers i p.free_buffers_head;
          free_buffers_head = i;
        })
        (i ∷ xs)
push_created i p xs lt e (f, l, b) =
    let fresh : contains xs i ≡ false = Below-fresh i xs (rw e at b) in
    (
      record {
        links = (
          refl,
          ground (
            arith,
            Links-update p.free_buffers p.free_buffers_head i p.free_buffers_head xs fresh f.links,
          ),
        );
        distinct = (fresh, f.distinct);
        in_range = (lt, f.in_range);
        marked = λ j d. ground (arith, f.marked j);
      },
      omega arith,
      (omega arith, Below-mono p.buffers_count (p.buffers_count + 1) xs (omega arith) b),
    )

create_buffers-AllFree :
    (create : ℕ → Bool) (n i : ℕ) (p : Pool) (xs : List ℕ)
    → i + n ≤ buffers_number
    → p.buffers_count ≡ i
    → AllFree p xs
    → (ys : List ℕ) × AllFree (create_buffers create n i p) ys
unfolding create_buffers
create_buffers-AllFree create zero i p xs h e f = (xs, f)
create_buffers-AllFree create (suc n) i p xs h e f = elim (Bool-cases (create i)) [
  | inl c ↦ rw c (
      create_buffers-AllFree create n (i + 1) _ (i ∷ xs) (omega arith) (omega arith)
        (push_created i p xs (omega arith) e f))
  | inr c ↦ rw c (xs, f)
]

-- Whichever buffers `withSize` fails to create, `withDefault` leaves a free list that links each
-- buffer of the array exactly once, and marks all other entries as not free.
pub with_default-AllFree :
    (create : ℕ → Bool) (memory : ℕ → List ℕ)
    → (xs : List ℕ) × AllFree (with_default create memory) xs
unfolding with_default
with_default-AllFree create memory =
    create_buffers-AllFree create buffers_number 0 _ [] (omega arith) refl
      (record { links = refl; distinct = tt; in_range = tt; marked = λ i c. refl }, refl, tt)

abbrev pub push_all : List ℕ → List ℕ → List ℕ
push_all [] xs = xs
push_all (i ∷ is) xs = push_all is (i ∷ xs)

-- Buffers in use, each once.
abbrev pub InUse : List ℕ → List ℕ → Type 0
InUse [] xs = Unit
InUse (i ∷ is) xs = (i < buffers_number) × (contains xs i ≡ false) × InUse is (i ∷ xs)

release_rounds-IsFreeList :
    (n : ℕ) (is rest : List ℕ) (p : Pool) (xs : List ℕ)
    → IsFreeList p xs
    → InUse is xs
    → length is ≤ n
    → (rest ≡ []) ⊎ ((r : List ℕ) × (rest ≡ uint8_max ∷ r))
    → IsFreeList (release_rounds n (is ++ rest) p) (push_all is xs)
unfolding release_rounds
release_rounds-IsFreeList zero [] rest p xs f u l e = f
release_rounds-IsFreeList zero (i ∷ is) rest p xs f u l e = absurd (omega arith)
release_rounds-IsFreeList (suc n) [] rest p xs f u l (inl e) = rw e f
release_rounds-IsFreeList (suc n) [] rest p xs f u l (inr (r, e)) = rw e f
release_rounds-IsFreeList (suc n) (i ∷ is) rest p xs f u l e =
    let ih =
      release_rounds-IsFreeList n is rest (release i p) (i ∷ xs) (release-IsFreeList i xs f u.0 u.1)
        u.2 (omega arith) e in
    ground (arith, ih)

InUse-Free :
    (is xs : List ℕ)
    → InUse is xs
    → Distinct xs
    → Below buffers_number xs
    → Distinct (push_all is xs) × Below buffers_number (push_all is xs)
InUse-Free [] xs u d b = (d, b)
InUse-Free (i ∷ is) xs u d b = InUse-Free is (i ∷ xs) u.2 (u.1, d) (u.0, b)

length-push_all : (is xs : List ℕ) → length (push_all is xs) ≡ length is + length xs
length-push_all [] xs = omega arith
length-push_all (i ∷ is) xs = omega (arith, length-push_all is (i ∷ xs))

-- Releasing an array of buffers in use, each named once, puts them all on the free list.
pub release_data_buffers-IsFreeList :
    (is : List ℕ) (p : Pool) (xs : List ℕ)
    → IsFreeList p xs
    → InUse is xs
    → IsFreeList (release_data_buffers (terminate is) p) (push_all is xs)
unfolding release_data_buffers
release_data_buffers-IsFreeList is p xs f u =
    let free : Distinct (push_all is xs) × Below buffers_number (push_all is xs) =
      InUse-Free is xs u f.distinct f.in_range in
    let few : length is ≤ buffers_number =
      omega (arith, length-push_all is xs, length-le_of_Distinct buffers_number _ free.0 free.1) in
    elim (Bool-cases (ltb (length is) buffers_number)) [
      | inl short ↦
          rw short (release_rounds-IsFreeList buffers_number is _ p xs f u few (inr ([], refl)))
      | inr full ↦ rw full (
          subst (λ js. IsFreeList (release_rounds buffers_number js p) (push_all is xs))
            (append-nil is)
            (release_rounds-IsFreeList buffers_number is [] p xs f u few (inl refl)))
    ]
