-- ===== src/Filter/Life/References.antt =====
-- The attaching and detaching of sockets, and the references of the socket objects.
use mac_osx_network_sockets.Base.{
  ℕ, ◌≡◌, refl, Bool, true, false, ◌&&◌, Option, none, some, arith, Bool-cases, inl, inr, ==-self,
}
use mac_osx_network_sockets.Packet.{data_all}
use mac_osx_network_sockets.Filter.{Filter}
use mac_osx_network_sockets.Filter.References.{Counted, bump, change-Counted, either-Counted}
use mac_osx_network_sockets.Filter.Service.{get_socket_object_ref, release_object}
use mac_osx_network_sockets.Filter.Service.References.{
  taken_by, release_object-Counted, get_socket_object_ref-Counted,
}
use mac_osx_network_sockets.Filter.Close.{detach_data}
use mac_osx_network_sockets.Filter.Close.References.{purge_socket-Counted}
use mac_osx_network_sockets.Filter.Life.{
  Birth, with_socket, insert_in_sockets_list, leave_sockets_list, leave_report_list,
  remove_from_sockets_list, retain_object, flt_detach, detach_found, detach_old,
  is_socket_object_in_list, attach_new, flt_attach,
}

module _ (x : ℕ → ℕ) (o : ℕ) (f : Filter) where
  pub retain_object-Counted : Counted x f → Counted (bump o x) (retain_object o f)
  unfolding retain_object
  retain_object-Counted c = record {
    counted = λ i. (let h = c.counted o in let k = c.counted i in ground (arith, ==-self o));
  }

  insert_in_sockets_list-Counted : Counted x f → Counted x (insert_in_sockets_list o f)
  unfolding insert_in_sockets_list
  insert_in_sockets_list-Counted c = record {
    counted = λ i. (let h = c.counted o in let k = c.counted i in ground (arith, ==-self o));
  }

  remove_from_sockets_list-Counted : Counted x f → Counted x (remove_from_sockets_list o f)
  unfolding remove_from_sockets_list leave_sockets_list leave_report_list release_object
  remove_from_sockets_list-Counted c = record {
    counted = λ i. (let h = c.counted o in let k = c.counted i in ground (arith, ==-self o));
  }

pub flt_detach-Counted : (x : ℕ → ℕ) (o : ℕ) (f : Filter) → Counted x f → Counted x (flt_detach o f)
unfolding flt_detach detach_data
flt_detach-Counted x o f c =
    let retained = retain_object-Counted x o f c in
    let removed = remove_from_sockets_list-Counted (bump o x) o _ retained in
    let locked = change-Counted (bump o x) o _ _ (refl, refl, refl) removed in
    release_object-Counted x o _ (purge_socket-Counted (bump o x) data_all o _ locked)

detach_found-Counted :
    (x : ℕ → ℕ) (y : Option ℕ × Filter) → Counted (taken_by y.0 x) y.1 → Counted x (detach_found y)
detach_found-Counted x (none, f) c = c
detach_found-Counted x (some o, f) c =
    release_object-Counted x o _ (flt_detach-Counted (bump o x) o f c)

in_list-Counted :
    (x : ℕ → ℕ) (y : Option ℕ × Filter)
    → Counted (taken_by y.0 x) y.1
    → Counted x (is_socket_object_in_list y).1
in_list-Counted x (none, f) c = c
in_list-Counted x (some o, f) c = release_object-Counted x o f c

detach_old-Counted : (x : ℕ → ℕ) (so : ℕ) (f : Filter) → Counted x f → Counted x (detach_old so f)
detach_old-Counted x so f c =
    let (found, g) = is_socket_object_in_list (get_socket_object_ref so f) in
    let d = in_list-Counted x _ (get_socket_object_ref-Counted x so f c) in
    either-Counted x found _ g (detach_found-Counted x _ (get_socket_object_ref-Counted x so g d)) d

-- A new object has the one reference of `new`; no call has taken one to an old object of its name.
attach_with-Counted :
    (x : ℕ → ℕ) (b : Birth) (so family : ℕ) (f : Filter)
    → x b.name ≡ 0
    → Counted x f
    → Counted x (attach_new (with_socket b so family f)).2
unfolding with_socket
attach_with-Counted x b so family f free c = elim (Bool-cases (b.allocated && b.initialised)) [
  | inl e ↦ rw e (
      release_object-Counted x b.name _ (
        insert_in_sockets_list-Counted (bump b.name x) b.name _
          (record { counted = λ i. (let k = c.counted i in ground (arith, ==-self b.name)) })))
  | inr e ↦ rw e c
]

pub flt_attach-Counted :
    (x : ℕ → ℕ) (started : Bool) (b : Birth) (so family : ℕ) (f : Filter)
    → x b.name ≡ 0
    → Counted x f
    → Counted x (flt_attach started b so family f).2
unfolding flt_attach
flt_attach-Counted x false b so family f free c = c
flt_attach-Counted x true b so family f free c =
    attach_with-Counted x b so family (detach_old so f) free (detach_old-Counted x so f c)
