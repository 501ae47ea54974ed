-- ===== src/LinkedList/Operations.antt =====
-- Each operation does to the ring what its name says to the list of its entries.
use mac_osx_network_sockets.Base.{
  ℕ, ◌≡◌, refl, false, List, [], ◌∷◌, ◌++◌, arith, contains, Distinct, contains-append,
  Distinct-append_parts, append-nil, subst,
}
use mac_osx_network_sockets.LinkedList.{
  Heap, insert_tail_list, insert_head_list, remove_entry_list, remove_head_list, remove_tail_list,
  initialize_list_head, append_tail_list,
}
use mac_osx_network_sockets.LinkedList.Ring.{
  Links, IsRing, Links-append, append-Links, Links-same, last-contains, Links-retarget,
}

pub initialize-IsRing : (head : ℕ) (h : Heap) → IsRing (initialize_list_head head h) head []
unfolding initialize_list_head
initialize-IsRing head h = record { links = ground arith; distinct = (refl, tt) }

Distinct-snoc :
    (xs : List ℕ) (e : ℕ) → Distinct xs → contains xs e ≡ false → Distinct (xs ++ e ∷ [])
Distinct-snoc [] e d out = (refl, tt)
Distinct-snoc (x ∷ xs) e d out =
    (ground (arith, contains-append xs (e ∷ []) x), Distinct-snoc xs e d.1 (ground arith))

pub insert_tail-IsRing :
    (h : Heap) (head e : ℕ) (xs : List ℕ)
    → IsRing h head xs
    → contains (head ∷ xs) e ≡ false
    → IsRing (insert_tail_list head e h) head (xs ++ e ∷ [])
unfolding insert_tail_list
insert_tail-IsRing h head e xs r out =
    let last = last-contains h head xs head r.links in
    record {
      links =
          append-Links _ head xs e [] head
            (Links-retarget h _ head xs head e r.links r.distinct (ground arith) (ground arith)
              (λ z m n. ground arith) (λ z m. ground (arith, r.distinct)))
            (ground arith);
      distinct = Distinct-snoc (head ∷ xs) e r.distinct out;
    }

pub insert_head-IsRing :
    (h : Heap) (head e : ℕ) (xs : List ℕ)
    → IsRing h head xs
    → contains (head ∷ xs) e ≡ false
    → IsRing (insert_head_list head e h) head (e ∷ xs)
unfolding insert_head_list
insert_head-IsRing h head e [] r out = record { links = ground arith; distinct = ground arith }
insert_head-IsRing h head e (x ∷ xs) r out = record {
  links = (
    ground arith,
    ground arith,
    (
      ground arith,
      ground arith,
      Links-same h _ x xs head r.links.2 (λ z m. ground (arith, r.distinct))
          (λ z m. ground (arith, r.distinct)),
    ),
  );
  distinct = ground (arith, r.distinct);
}

Distinct-drop : (xs ys : List ℕ) (e : ℕ) → Distinct (xs ++ e ∷ ys) → Distinct (xs ++ ys)
Distinct-drop [] ys e d = d.1
Distinct-drop (x ∷ xs) ys e d = (
  ground (arith, contains-append xs (e ∷ ys) x, contains-append xs ys x),
  Distinct-drop xs ys e d.1,
)

pub remove_entry-IsRing :
    (h : Heap) (head e : ℕ) (xs ys : List ℕ)
    → IsRing h head (xs ++ e ∷ ys)
    → IsRing (remove_entry_list e h).1 head (xs ++ ys)
unfolding remove_entry_list
remove_entry-IsRing h head e xs [] r =
    let (front, back) = Links-append h head xs e [] head r.links in
    let (d, k, apart) = Distinct-append_parts (head ∷ xs) (e ∷ []) r.distinct in
    let last = last-contains h head xs e front in
    rw (append-nil xs) (record {
      links =
          Links-retarget h _ head xs e head front d (ground arith) (ground arith)
            (λ z m n. ground arith) (λ z m. ground arith);
      distinct = d;
    })
remove_entry-IsRing h head e xs (y ∷ ys) r =
    let (front, back) = Links-append h head xs e (y ∷ ys) head r.links in
    let (d, k, apart) = Distinct-append_parts (head ∷ xs) (e ∷ y ∷ ys) r.distinct in
    let last = last-contains h head xs e front in
    record {
      links =
          append-Links _ head xs y ys head
            (Links-retarget h _ head xs e y front d (ground arith) (ground arith)
              (λ z m n. ground arith) (λ z m. ground (arith, apart z)))
            (Links-same h _ y ys head back.2 (λ z m. ground (arith, apart z, apart (h.blink e)))
              (λ z m. ground (arith, apart head)));
      distinct = Distinct-drop (head ∷ xs) (y ∷ ys) e r.distinct;
    }

pub remove_head-IsRing :
    (h : Heap) (head x : ℕ) (xs : List ℕ)
    → IsRing h head (x ∷ xs)
    → ((remove_head_list head h).0 ≡ x) × IsRing (remove_head_list head h).1 head xs
unfolding remove_head_list remove_entry_list
remove_head-IsRing h head x xs r =
    let same : (remove_head_list head h).1 ≡ (remove_entry_list x h).1 =
      rw (r.links.0, r.links.1) refl in
    (r.links.0, rw same (remove_entry-IsRing h head x [] xs r))

pub remove_tail-IsRing :
    (h : Heap) (head x : ℕ) (xs : List ℕ)
    → IsRing h head (xs ++ x ∷ [])
    → ((remove_tail_list head h).0 ≡ x) × IsRing (remove_tail_list head h).1 head xs
unfolding remove_tail_list remove_entry_list
remove_tail-IsRing h head x xs r =
    let (front, back) = Links-append h head xs x [] head r.links in
    let same : (remove_tail_list head h).1 ≡ (remove_entry_list x h).1 = rw (back.0, back.1) refl in
    (back.1, rw same (subst (IsRing _ head) (append-nil xs) (remove_entry-IsRing h head x xs [] r)))

-- `AppendTailList` joins a list and a cycle of other entries, which has no head, to one list.
append_tail-IsRing :
    (h : Heap) (head y : ℕ) (xs ys : List ℕ)
    → IsRing h head xs
    → Links h y ys y
    → Distinct (head ∷ xs ++ y ∷ ys)
    → IsRing (append_tail_list head y h) head (xs ++ y ∷ ys)
unfolding append_tail_list
append_tail-IsRing h head y xs ys r cycle d =
    let (k, l, apart) = Distinct-append_parts (head ∷ xs) (y ∷ ys) d in
    let last = last-contains h head xs head r.links in
    let last' = last-contains h y ys y cycle in
    record {
      links =
          append-Links _ head xs y ys head
            (Links-retarget h _ head xs head y r.links k
              (ground (arith, apart (h.blink head), apart head)) (ground (arith, apart head))
              (λ z m n. ground (arith, apart z, apart head))
              (λ z m. ground (arith, apart z, apart head)))
            (Links-retarget h _ y ys y head cycle l (ground (arith, apart head))
              (ground (arith, apart head))
              (λ z m n. ground (arith, apart z, apart (h.blink head), apart head))
              (λ z m. ground (arith, apart z, apart head)));
      distinct = d;
    }
