-- ===== src/Tests/Lists.antt =====
-- Operations on a doubly linked list.
use mac_osx_network_sockets.Base.{refl, [], ◌∷◌, List}
use mac_osx_network_sockets.LinkedList.{Heap, initialize_list_head}
use mac_osx_network_sockets.LinkedList.Ring.{IsRing}
use mac_osx_network_sockets.LinkedList.Runs.{
  Operation, insert_tail, insert_head, remove_head, remove, run, run-IsRing,
}

abbrev null_links : Heap
null_links = record { flink = λ _. 0; blink = λ _. 0 }

-- 6 5 7, and then 6 7, and then 7
abbrev operations : List Operation
operations = insert_tail 5 ∷ insert_head 6 ∷ insert_tail 7 ∷ remove 5 ∷ remove_head ∷ []

run-IsRing_example : IsRing (run 100 operations (initialize_list_head 100 null_links)) 100 (7 ∷ [])
run-IsRing_example = run-IsRing 100 operations null_links (7 ∷ []) (
  5 ∷ [],
  (refl, refl),
  (
    6 ∷ 5 ∷ [],
    (refl, refl),
    (
      6 ∷ 5 ∷ 7 ∷ [],
      (refl, refl),
      (6 ∷ 7 ∷ [], (6 ∷ [], 7 ∷ [], refl, refl), (7 ∷ [], (6, refl), refl)),
    ),
  ),
)
