-- ===== src/Filter/Service/Listed.antt =====
-- `processServiceResponse` and the list `SocketsListToReport`.
use mac_osx_network_sockets.Base.{
  ℕ, refl, ◌∙◌, Bool, true, false, Option, none, some, List, [], ◌∷◌, ◌==◌, if◌then◌else◌, update,
}
use mac_osx_network_sockets.Packet.{data_all}
use mac_osx_network_sockets.Socket.Reinject.Valid.{reinject-waiting}
use mac_osx_network_sockets.Socket.Response.{Property, set_deferred_data_properties}
use mac_osx_network_sockets.Socket.Response.Valid.{response-IsValid, response-waiting}
use mac_osx_network_sockets.Filter.{Environment, Filter}
use mac_osx_network_sockets.Filter.Delivery.Valid.{AllValid, release_and_deliver-IsValid}
use mac_osx_network_sockets.Filter.Delivery.Listed.{
  NoneStranded, traced-NoneStranded, update-NoneStranded, release_and_deliver-NoneStranded,
}
use mac_osx_network_sockets.Filter.Service.Valid.{process_at-IsValid, get_socket_object_ref-IsValid}
use mac_osx_network_sockets.Filter.Service.{
  get_socket_object_ref, retain_found, find_socket, release_object, respond, process_at,
  process_properties, process_service_response, is_unknown,
}

either-NoneStranded :
    (b : Bool) (f g : Filter) → NoneStranded f → NoneStranded g → NoneStranded (if b then f else g)
either-NoneStranded true f g v w = v
either-NoneStranded false f g v w = w

get_socket_object_ref-NoneStranded :
    (so : ℕ) (f : Filter) → NoneStranded f → NoneStranded (get_socket_object_ref so f).1
unfolding get_socket_object_ref retain_found
get_socket_object_ref-NoneStranded so f h = go (find_socket f.objects so f.sockets_list)
  where
    go : (r : Option ℕ) → NoneStranded (retain_found f r).1
    go none = h
    go (some o) = update-NoneStranded o _ f refl (λ n. n) h

release_object-NoneStranded :
    (o : ℕ) (f : Filter) → NoneStranded f → NoneStranded (release_object o f)
unfolding release_object
release_object-NoneStranded o f h = update-NoneStranded o _ f refl (λ n. n) h

module _ (env : Environment) where
  respond-NoneStranded :
      (r : Property) (o : ℕ) (f : Filter)
      → AllValid f
      → NoneStranded f
      → NoneStranded (respond env r o f)
  unfolding respond
  respond-NoneStranded r o f v h =
      let s = set_deferred_data_properties r (f.objects o) in
      let (flag, same) = response-waiting r (f.objects o) in
      let (flag', same') =
        reinject-waiting env.inject_error env.uninitialised data_all env.now s
          (response-IsValid r _ (v o)).answered in
      traced-NoneStranded (record f { objects = update f.objects o _ }) _ refl refl
        (update-NoneStranded o _ f (flag' ∙ flag) (λ n. same' ∙ same ∙ n) h)

  process_at-NoneStranded :
      (r : Property) (x : Option ℕ × Filter)
      → AllValid x.1
      → NoneStranded x.1
      → NoneStranded (process_at env r x)
  unfolding process_at
  process_at-NoneStranded r (none, f) v h = h
  process_at-NoneStranded r (some o, f) v h =
      let b = (f.objects o).socket_sequence == r.socket_sequence in
      release_object-NoneStranded o (if b then respond env r o f else f)
        (either-NoneStranded b (respond env r o f) f (respond-NoneStranded r o f v h) h)

  process_properties-NoneStranded :
      (rs : List Property) (f : Filter)
      → AllValid f
      → NoneStranded f
      → NoneStranded (process_properties env rs f)
  unfolding process_properties
  process_properties-NoneStranded [] f v h = h
  process_properties-NoneStranded (r ∷ rs) f v h =
      let w = get_socket_object_ref-IsValid r.socket f v in
      let k = get_socket_object_ref-NoneStranded r.socket f h in
      either-NoneStranded (is_unknown r.type) f _ h (
        process_properties-NoneStranded rs _ (process_at-IsValid env r _ w)
          (process_at-NoneStranded r _ w k))

  -- No packet is stranded by `processServiceResponse`, whichever buffers and answers the user-mode
  -- service sends, if the socket objects are valid and none was stranded before.
  pub process_service_response-NoneStranded :
      (buffers : List ℕ) (rs : List Property) (f : Filter)
      → AllValid f
      → NoneStranded f
      → NoneStranded (process_service_response env buffers rs f)
  unfolding process_service_response
  process_service_response-NoneStranded buffers rs f v h =
      process_properties-NoneStranded rs _ (release_and_deliver-IsValid env buffers f v)
        (release_and_deliver-NoneStranded env buffers f h)
