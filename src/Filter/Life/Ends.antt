-- ===== src/Filter/Life/Ends.antt =====
-- What `FltAttach` and `FltDetach` leave behind.
use mac_osx_network_sockets.Base.{
  ℕ, ◌≡◌, refl, sym, ap, ◌∙◌, true, false, ◌&&◌, some, List, [], ◌∷◌, ◌==◌, ==→eq, update, arith,
  ==-self, contains, Distinct, Bool-cases, inl, inr,
}
use mac_osx_network_sockets.Packet.{data_all}
use mac_osx_network_sockets.Socket.{SocketObject}
use mac_osx_network_sockets.Socket.Purge.{purge_pending_queue}
use mac_osx_network_sockets.Socket.Purge.Valid.{purge-empty}
use mac_osx_network_sockets.Socket.Purge.Roots.{purge-SameRoots}
use mac_osx_network_sockets.Socket.Detach.{start_removal}
use mac_osx_network_sockets.Filter.{Filter}
use mac_osx_network_sockets.Filter.References.{Counted, HasReferences}
use mac_osx_network_sockets.Filter.Service.{
  get_socket_object_ref, find_socket, retain_found, release_object,
}
use mac_osx_network_sockets.Filter.Delivery.Listed.{IsListed}
use mac_osx_network_sockets.Filter.Close.{purge_socket, detach_data}
use mac_osx_network_sockets.Filter.Life.{
  Birth, remove, with_socket, insert_in_sockets_list, leave_sockets_list, leave_report_list,
  remove_from_sockets_list, retain_object, lock_for_removal, flt_detach, detach_old, attach_new,
  flt_attach,
}
use mac_osx_network_sockets.Filter.Life.References.{flt_detach-Counted}

update_self : (objects : ℕ → SocketObject) (o : ℕ) (t : SocketObject) → update objects o t o ≡ t
update_self objects o t = rw (==-self o) refl

found_first :
    (o so : ℕ) (os : List ℕ) (f : Filter)
    → f.sockets_list ≡ o ∷ os
    → (f.objects o).socket ≡ so
    → (get_socket_object_ref so f).0 ≡ some o
unfolding get_socket_object_ref find_socket retain_found
found_first o so os f first socket =
    rw (get_socket_object_ref, first, find_socket, socket, ==-self so) refl

new_is_found :
    (b : Birth) (so family : ℕ) (f : Filter)
    → (b.allocated && b.initialised) ≡ true
    → let (error, cookie, g) = attach_new (with_socket b so family f) in
      (error ≡ 0) × (cookie ≡ some b.name) × ((get_socket_object_ref so g).0 ≡ some b.name)
unfolding with_socket insert_in_sockets_list release_object
new_is_found b so family f born =
    rw (born, ==-self b.name)
      (refl, refl, found_first b.name so f.sockets_list _ refl (rw (==-self b.name) refl))

-- Where the filter runs and there is memory for the object, `FltAttach` succeeds, whatever other
-- objects of the socket there were: its cookie is the new object, and in the state that it leaves it
-- is the new object that `GetSocketObjectRef` finds for the socket.
pub flt_attach_is_found :
    (b : Birth) (so family : ℕ) (f : Filter)
    → (b.allocated && b.initialised) ≡ true
    → let (error, cookie, g) = flt_attach true b so family f in
      (error ≡ 0) × (cookie ≡ some b.name) × ((get_socket_object_ref so g).0 ≡ some b.name)
unfolding flt_attach
flt_attach_is_found b so family f born = new_is_found b so family (detach_old so f) born

removed_flags :
    (o : ℕ) (f : Filter)
    → let s = (remove_from_sockets_list o f).objects o in
      (s.inserted_in_sockets_list ≡ false) × (s.inserted_in_sockets_list_to_report ≡ false)
unfolding remove_from_sockets_list leave_sockets_list leave_report_list release_object
removed_flags o f = ground (arith, ==-self o)

-- An object that is in no list.
record IsGone (s : SocketObject) : Type 0 where
  in_list : s.inserted_in_sockets_list ≡ false
  in_report : s.inserted_in_sockets_list_to_report ≡ false

purge-IsGone : (s : SocketObject) → IsGone s → IsGone (purge_pending_queue data_all s).0
purge-IsGone s g =
    let (_, l, k) = purge-SameRoots data_all s in
    record { in_list = l ∙ g.in_list; in_report = k ∙ g.in_report }

-- The object after `FltDetach`, by way of the object before the purge.
detached_object :
    (o : ℕ) (f : Filter)
    → IsGone (f.objects o)
    → let s = (release_object o (detach_data o (lock_for_removal o f))).objects o in
      IsGone s × (s.pending_queue ≡ [])
unfolding detach_data purge_socket release_object
detached_object o f g =
    let locked : SocketObject = record (f.objects o) {
      lock_count = start_removal (f.objects o).lock_count;
    } in
    let purged = purge-IsGone locked (record { in_list = g.in_list; in_report = g.in_report }) in
    rw (==-self o)
      (record { in_list = purged.in_list; in_report = purged.in_report }, purge-empty locked)

no_references : (s : SocketObject) → IsGone s → HasReferences 0 s → s.references ≡ 0
no_references s g h = ground (arith, g.in_list, g.in_report)

-- `insertedInSocketsList` says which objects stand in `SocketsList`, each once, and
-- `insertedInSocketsListToReport` which stand in `SocketsListToReport`.
pub record AreListed (f : Filter) : Type 0 where
  pub distinct : Distinct f.sockets_list
  pub flagged : (i : ℕ) → (f.objects i).inserted_in_sockets_list ≡ contains f.sockets_list i
  pub to_report : IsListed f

remove-contains : (o : ℕ) (os : List ℕ) → Distinct os → contains (remove o os) o ≡ false
remove-contains o [] d = refl
remove-contains o (x ∷ os) d = elim (Bool-cases (x == o)) [
  | inl e ↦ rw (e, sym (==→eq x o e)) d.0
  | inr e ↦ let ih = remove-contains o os d.1 in ground (arith, ih)
]

removed_lists :
    (o : ℕ) (f : Filter)
    → AreListed f
    → let g = remove_from_sockets_list o (retain_object o f) in
      (contains g.sockets_list o ≡ false) × (contains g.sockets_list_to_report o ≡ false)
unfolding remove_from_sockets_list leave_sockets_list leave_report_list release_object retain_object
removed_lists o f l =
    let a = remove-contains o f.sockets_list l.distinct in
    let b = remove-contains o f.sockets_list_to_report l.to_report.distinct in
    let c = l.flagged o in let d = l.to_report.flagged o in ground (arith, a, b, c, d, ==-self o)

detach_lists :
    (o : ℕ) (f : Filter)
    → let g = release_object o (detach_data o (lock_for_removal o f)) in
      (g.sockets_list ≡ f.sockets_list) × (g.sockets_list_to_report ≡ f.sockets_list_to_report)
unfolding detach_data purge_socket release_object
detach_lists o f = (refl, refl)

-- `FltDetach` of any object, in a state where the two lists are those of the flags, each object once
-- in each, and every object has as many references as lists that it stands in: afterwards the object
-- is in neither list, its flags are cleared, it has no pending packets, and no reference to it is
-- left.
pub flt_detach_frees :
    (o : ℕ) (f : Filter)
    → AreListed f
    → Counted (λ i. 0) f
    → let g = flt_detach o f in
      let s = g.objects o in
      (contains g.sockets_list o ≡ false)
      × (contains g.sockets_list_to_report o ≡ false)
      × (s.inserted_in_sockets_list ≡ false)
      × (s.inserted_in_sockets_list_to_report ≡ false)
      × (s.pending_queue ≡ [])
      × (s.references ≡ 0)
unfolding flt_detach
flt_detach_frees o f lists c =
    let (l, k) = removed_flags o (retain_object o f) in
    let g = remove_from_sockets_list o (retain_object o f) in
    let (gone, empty) = detached_object o g (record { in_list = l; in_report = k }) in
    let (out, out_report) = removed_lists o f lists in
    let (same, same_report) = detach_lists o g in
    let d = (flt_detach-Counted (λ i. 0) o f c).counted o in
    (
      ap (λ xs. contains xs o) same ∙ out,
      ap (λ xs. contains xs o) same_report ∙ out_report,
      gone.in_list,
      gone.in_report,
      empty,
      no_references _ gone d,
    )
