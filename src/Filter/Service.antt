-- ===== src/Filter/Service.antt =====
-- `processServiceResponse` and `GetSocketObjectRef`: the answers of the service reach the packets that
-- they are for.
pub mod Valid
pub mod References
pub mod Listed
use mac_osx_network_sockets.Base.{
  ℕ, Bool, true, false, Option, none, some, List, [], ◌∷◌, ◌++◌, ◌==◌, if◌then◌else◌, update, add32,
  sub32,
}
use mac_osx_network_sockets.Packet.{data_all}
use mac_osx_network_sockets.Socket.{SocketObject}
use mac_osx_network_sockets.Socket.Reinject.{reinject_deferred_data}
use mac_osx_network_sockets.Socket.Response.{
  PropertyType, unknown, Property, set_deferred_data_properties,
}
use mac_osx_network_sockets.Filter.{Environment, Filter}
use mac_osx_network_sockets.Filter.Delivery.{release_data_buffers_and_deliver}

-- The `TAILQ_FOREACH` over `SocketsList`.
unfoldable pub find_socket : (ℕ → SocketObject) → ℕ → List ℕ → Option ℕ
find_socket objects so [] = none
find_socket objects so (o ∷ os) =
    if (objects o).socket == so then some o else find_socket objects so os

-- `if( sockObj )` of `GetSocketObjectRef`
unfoldable pub retain_found : Filter → Option ℕ → Option ℕ × Filter
retain_found f none = (none, f)
retain_found f (some o) = (
  some o,
  record f {
    objects =
        update f.objects o (record (f.objects o) { references = add32 (f.objects o).references 1 });
  },
)

-- `GetSocketObjectRef`: the object that is found has one more reference.
unfoldable pub get_socket_object_ref : ℕ → Filter → Option ℕ × Filter
unfolding find_socket retain_found
get_socket_object_ref so f = retain_found f (find_socket f.objects so f.sockets_list)

-- `release` of an object that other references keep.
unfoldable pub release_object : ℕ → Filter → Filter
release_object o f = record f {
  objects =
      update f.objects o (record (f.objects o) { references = sub32 (f.objects o).references 1 });
}

abbrev pub is_unknown : PropertyType → Bool
is_unknown t = elim t [ unknown ↦ true | _ ↦ false ]

module _ (env : Environment) where
  -- `setDeferredDataProperties` and `reinjectDeferredData( NkeSocketDataAll )` for the object `o`.
  pub respond : Property → ℕ → Filter → Filter
  respond r o f =
      let s = set_deferred_data_properties r (f.objects o) in
      let (t, es) = reinject_deferred_data env.inject_error env.uninitialised data_all env.now s in
      record f { objects = update f.objects o t; trace = f.trace ++ es }

  -- The body of the `for`, for a known property, at the object that was found.
  pub process_at : Property → Option ℕ × Filter → Filter
  unfolding respond release_object
  process_at r (none, f) = f
  process_at r (some o, f) =
      release_object o
        (if (f.objects o).socket_sequence == r.socket_sequence then respond r o f else f)

  -- The `for`; the list is the array `response->property`.
  pub process_properties : List Property → Filter → Filter
  unfolding process_at get_socket_object_ref
  process_properties [] f = f
  process_properties (r ∷ rs) f =
      let g = process_properties rs (process_at r (get_socket_object_ref r.socket f)) in
      if is_unknown r.type then f else g

  pub process_service_response : List ℕ → List Property → Filter → Filter
  unfolding process_properties
  process_service_response buffers_to_release rs f =
      process_properties rs (release_data_buffers_and_deliver env buffers_to_release f)
