-- ===== src/Filter/Service/Valid.antt =====
-- `processServiceResponse` and the invariant of the socket objects.
use mac_osx_network_sockets.Base.{
  ℕ, Option, none, some, List, [], ◌∷◌, ◌==◌, if◌then◌else◌, update, arith, inl, inr, Bool-cases,
}
use mac_osx_network_sockets.Packet.{data_all}
use mac_osx_network_sockets.Socket.{SocketObject}
use mac_osx_network_sockets.Socket.Counters.{IsValid}
use mac_osx_network_sockets.Socket.Reinject.Valid.{reinject-IsValid}
use mac_osx_network_sockets.Socket.Response.{Property}
use mac_osx_network_sockets.Socket.Response.Valid.{response-IsValid}
use mac_osx_network_sockets.Filter.{Environment, Filter}
use mac_osx_network_sockets.Filter.Delivery.Valid.{
  AllValid, release_and_deliver-IsValid, either-AllValid,
}
use mac_osx_network_sockets.Filter.Service.{
  get_socket_object_ref, retain_found, release_object, respond, process_at, process_properties,
  process_service_response, is_unknown,
}

pub update-AllValid :
    (o : ℕ) (t : SocketObject) (f : Filter)
    → AllValid f
    → IsValid t
    → AllValid (record f { objects = update f.objects o t })
update-AllValid o t f v w i = elim (Bool-cases (o == i)) [ inl e ↦ rw e w | inr e ↦ rw e (v i) ]

referenced-IsValid : (s : SocketObject) (n : ℕ) → IsValid s → IsValid (record s { references = n })
referenced-IsValid s n v = ground arith

retain_found-IsValid : (f : Filter) (r : Option ℕ) → AllValid f → AllValid (retain_found f r).1
unfolding retain_found
retain_found-IsValid f none v = v
retain_found-IsValid f (some o) v = update-AllValid o _ f v (referenced-IsValid _ _ (v o))

pub get_socket_object_ref-IsValid :
    (so : ℕ) (f : Filter) → AllValid f → AllValid (get_socket_object_ref so f).1
unfolding get_socket_object_ref
get_socket_object_ref-IsValid so f v = retain_found-IsValid f _ v

release_object-IsValid : (o : ℕ) (f : Filter) → AllValid f → AllValid (release_object o f)
unfolding release_object
release_object-IsValid o f v = update-AllValid o _ f v (referenced-IsValid _ _ (v o))

module _ (env : Environment) where
  respond-IsValid : (r : Property) (o : ℕ) (f : Filter) → AllValid f → AllValid (respond env r o f)
  unfolding respond
  respond-IsValid r o f v =
      let w =
        reinject-IsValid env.inject_error env.uninitialised data_all env.now _
          (response-IsValid r _ (v o)) in
      λ i. update-AllValid o _ f v w i

  pub process_at-IsValid :
      (r : Property) (x : Option ℕ × Filter) → AllValid x.1 → AllValid (process_at env r x)
  unfolding process_at
  process_at-IsValid r (none, f) v = v
  process_at-IsValid r (some o, f) v =
      let b = (f.objects o).socket_sequence == r.socket_sequence in
      release_object-IsValid o (if b then respond env r o f else f)
        (either-AllValid b (respond env r o f) f (respond-IsValid r o f v) v)

  process_properties-IsValid :
      (rs : List Property) (f : Filter) → AllValid f → AllValid (process_properties env rs f)
  unfolding process_properties
  process_properties-IsValid [] f v = v
  process_properties-IsValid (r ∷ rs) f v = either-AllValid (is_unknown r.type) f _ v (
      process_properties-IsValid rs _
        (process_at-IsValid r _ (get_socket_object_ref-IsValid r.socket f v)))

  -- `processServiceResponse` keeps the invariant of every socket object, whichever buffers and
  -- answers the user-mode service sends.
  pub process_service_response-IsValid :
      (buffers : List ℕ) (rs : List Property) (f : Filter)
      → AllValid f
      → AllValid (process_service_response env buffers rs f)
  unfolding process_service_response
  process_service_response-IsValid buffers rs f v =
      process_properties-IsValid rs _ (release_and_deliver-IsValid env buffers f v)
