-- ===== src/LinkedList/Runs.antt =====
-- Sequences of operations on one list, against the list of its entries.
use mac_osx_network_sockets.Base.{ℕ, ◌≡◌, false, List, [], ◌∷◌, ◌++◌, contains, subst}
use mac_osx_network_sockets.LinkedList.{
  Heap, insert_tail_list, insert_head_list, remove_entry_list, remove_head_list, remove_tail_list,
  initialize_list_head,
}
use mac_osx_network_sockets.LinkedList.Ring.{IsRing}
use mac_osx_network_sockets.LinkedList.Operations.{
  initialize-IsRing, insert_tail-IsRing, insert_head-IsRing, remove_entry-IsRing,
  remove_head-IsRing, remove_tail-IsRing,
}

pub data Operation : Type 0 where
  insert_tail : ℕ → Operation
  insert_head : ℕ → Operation
  remove_head : Operation
  remove_tail : Operation
  remove : ℕ → Operation

-- The operation on the heap
abbrev pub apply : ℕ → Operation → Heap → Heap
apply head (insert_tail e) h = insert_tail_list head e h
apply head (insert_head e) h = insert_head_list head e h
apply head remove_head h = (remove_head_list head h).1
apply head remove_tail h = (remove_tail_list head h).1
apply head (remove e) h = (remove_entry_list e h).1

-- What it does to the list of the entries
abbrev pub Changes : ℕ → Operation → List ℕ → List ℕ → Type 0
Changes head (insert_tail e) xs ys = (contains (head ∷ xs) e ≡ false) × (ys ≡ xs ++ e ∷ [])
Changes head (insert_head e) xs ys = (contains (head ∷ xs) e ≡ false) × (ys ≡ e ∷ xs)
Changes head remove_head xs ys = (x : ℕ) × (xs ≡ x ∷ ys)
Changes head remove_tail xs ys = (x : ℕ) × (xs ≡ ys ++ x ∷ [])
Changes head (remove e) xs ys =
    (us : List ℕ) × (vs : List ℕ) × (xs ≡ us ++ e ∷ vs) × (ys ≡ us ++ vs)

apply-IsRing :
    (head : ℕ) (op : Operation) (h : Heap) (xs ys : List ℕ)
    → IsRing h head xs
    → Changes head op xs ys
    → IsRing (apply head op h) head ys
apply-IsRing head (insert_tail e) h xs ys r (out, c) = rw c (insert_tail-IsRing h head e xs r out)
apply-IsRing head (insert_head e) h xs ys r (out, c) = rw c (insert_head-IsRing h head e xs r out)
apply-IsRing head remove_head h xs ys r (x, c) =
    (remove_head-IsRing h head x ys (subst (IsRing h head) c r)).1
apply-IsRing head remove_tail h xs ys r (x, c) =
    (remove_tail-IsRing h head x ys (subst (IsRing h head) c r)).1
apply-IsRing head (remove e) h xs ys r (us, vs, c, c') =
    rw c' (remove_entry-IsRing h head e us vs (subst (IsRing h head) c r))

pub run : ℕ → List Operation → Heap → Heap
run head [] h = h
run head (op ∷ ops) h = run head ops (apply head op h)

-- The changes one after the other
abbrev pub RunsTo : ℕ → List Operation → List ℕ → List ℕ → Type 0
RunsTo head [] xs zs = xs ≡ zs
RunsTo head (op ∷ ops) xs zs = (ys : List ℕ) × Changes head op xs ys × RunsTo head ops ys zs

run-IsRing_at :
    (head : ℕ) (ops : List Operation) (h : Heap) (xs zs : List ℕ)
    → IsRing h head xs
    → RunsTo head ops xs zs
    → IsRing (run head ops h) head zs
unfolding run
run-IsRing_at head [] h xs zs r e = subst (IsRing h head) e r
run-IsRing_at head (op ∷ ops) h xs zs r (ys, c, rest) =
    run-IsRing_at head ops (apply head op h) ys zs (apply-IsRing head op h xs ys r c) rest

-- Any sequence of insertions and removals behind `InitializeListHead` does to the links, forwards and
-- backwards, what it does to the list of the entries, if an entry is inserted only while it is not
-- in the list, and removed only while it is.
pub run-IsRing :
    (head : ℕ) (ops : List Operation) (h : Heap) (xs : List ℕ)
    → RunsTo head ops [] xs
    → IsRing (run head ops (initialize_list_head head h)) head xs
run-IsRing head ops h xs c =
    run-IsRing_at head ops (initialize_list_head head h) [] xs (initialize-IsRing head h) c
