-- ===== src/Filter/Service/References.antt =====
-- `processServiceResponse` and the references of the socket objects.
use mac_osx_network_sockets.Base.{
  ℕ, Option, none, some, List, [], ◌∷◌, ◌==◌, if◌then◌else◌, arith, ==-self,
}
use mac_osx_network_sockets.Packet.{data_all}
use mac_osx_network_sockets.Socket.{SocketObject}
use mac_osx_network_sockets.Socket.Reinject.Roots.{reinject-SameRoots}
use mac_osx_network_sockets.Socket.Response.{Property, set_deferred_data_properties}
use mac_osx_network_sockets.Filter.{Environment, Filter}
use mac_osx_network_sockets.Filter.References.{Counted, bump, change-Counted, either-Counted}
use mac_osx_network_sockets.Filter.Delivery.Listed.{IsListed}
use mac_osx_network_sockets.Filter.Delivery.References.{release_and_deliver-Counted}
use mac_osx_network_sockets.Filter.Service.{
  get_socket_object_ref, retain_found, find_socket, release_object, respond, process_at,
  process_properties, process_service_response, is_unknown,
}

-- The references that are taken once `GetSocketObjectRef` has returned.
abbrev pub taken_by : Option ℕ → (ℕ → ℕ) → ℕ → ℕ
taken_by none x = x
taken_by (some o) x = bump o x

pub release_object-Counted :
    (x : ℕ → ℕ) (o : ℕ) (f : Filter) → Counted (bump o x) f → Counted x (release_object o f)
unfolding release_object
release_object-Counted x o f c = record {
  counted = λ i. (let h = c.counted o in let k = c.counted i in ground (arith, ==-self o));
}

pub retain_found-Counted :
    (x : ℕ → ℕ) (f : Filter) (r : Option ℕ)
    → Counted x f
    → Counted (taken_by (retain_found f r).0 x) (retain_found f r).1
unfolding retain_found
retain_found-Counted x f none c = c
retain_found-Counted x f (some o) c = record {
  counted = λ i. (let h = c.counted o in let k = c.counted i in ground (arith, ==-self o));
}

pub get_socket_object_ref-Counted :
    (x : ℕ → ℕ) (so : ℕ) (f : Filter)
    → Counted x f
    → let (r, g) = get_socket_object_ref so f in Counted (taken_by r x) g
unfolding get_socket_object_ref
get_socket_object_ref-Counted x so f c =
    retain_found-Counted x f (find_socket f.objects so f.sockets_list) c

module _ (env : Environment) (x : ℕ → ℕ) where
  respond-Counted :
      (y : ℕ → ℕ) (r : Property) (o : ℕ) (f : Filter) → Counted y f → Counted y (respond env r o f)
  unfolding respond set_deferred_data_properties
  respond-Counted y r o f c =
      let s : SocketObject = set_deferred_data_properties r (f.objects o) in
      let same = reinject-SameRoots env.inject_error env.uninitialised data_all env.now s in
      record { counted = (change-Counted y o _ f same c).counted }

  process_at-Counted :
      (r : Property) (y : Option ℕ × Filter)
      → Counted (taken_by y.0 x) y.1
      → Counted x (process_at env r y)
  unfolding process_at
  process_at-Counted r (none, f) c = c
  process_at-Counted r (some o, f) c =
      let b = (f.objects o).socket_sequence == r.socket_sequence in
      release_object-Counted x o (if b then respond env r o f else f)
        (either-Counted (bump o x) b (respond env r o f) f (respond-Counted (bump o x) r o f c) c)

  process_properties-Counted :
      (rs : List Property) (f : Filter) → Counted x f → Counted x (process_properties env rs f)
  unfolding process_properties
  process_properties-Counted [] f c = c
  process_properties-Counted (r ∷ rs) f c = either-Counted x (is_unknown r.type) f _ c (
      process_properties-Counted rs _
        (process_at-Counted r _ (get_socket_object_ref-Counted x r.socket f c)))

  pub process_service_response-Counted :
      (buffers : List ℕ) (rs : List Property) (f : Filter)
      → IsListed f
      → Counted x f
      → Counted x (process_service_response env buffers rs f)
  unfolding process_service_response
  process_service_response-Counted buffers rs f l c =
      process_properties-Counted rs _ (release_and_deliver-Counted env x buffers f l c)
