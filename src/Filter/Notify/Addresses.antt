-- ===== src/Filter/Notify/Addresses.antt =====
-- The addresses on their way from the callbacks to the notification of a connected socket.
use mac_osx_network_sockets.Base.{
  ℕ, ◌+◌, ◌≤◌, ◌≡◌, refl, sym, subst, ap, ◌∙◌, true, ◌||◌, some, List, [], ◌∷◌, ◌++◌, ◌==◌, length,
  drop, ==-self, arith,
}
use mathlib.Core.Option.{some-injective}
use mac_osx_network_sockets.Packet.{FilterEvent, Notification, Effect, notified}
use mac_osx_network_sockets.Socket.Address.{
  af_inet, af_inet6, ObjectAddress, address_size, zeroed, has_room, is_address_valid, set_address,
  get_address, zeros, get_address-set_address, set_address-bytes, valid_bytes,
}
use mac_osx_network_sockets.Socket.{SocketObject}
use mac_osx_network_sockets.Socket.Events.{connected}
use mac_osx_network_sockets.Filter.{Environment, Filter}
use mac_osx_network_sockets.Filter.Close.{How}
use mac_osx_network_sockets.Filter.Connect.{
  note_remote, note_local, with_remote, with_local, note_remote-defined, note_local-defined,
}
use mac_osx_network_sockets.Filter.Notify.{
  Names, completed, addresses_at, init_socket_notification, handle_case, handle_event,
}

-- The parts of an address.
pub record Sockaddr : Type 0 where
  pub family : ℕ
  pub high : ℕ
  pub low : ℕ
  pub rest : List ℕ

-- Its bytes, as the kernel passes them.
abbrev pub bytes_of : Sockaddr → List ℕ
bytes_of a = (length a.rest + 4) ∷ a.family ∷ a.high ∷ a.low ∷ a.rest

-- An address of one of the two families that fits into an address field.
abbrev pub IsInet : Sockaddr → Type 0
IsInet a =
    (((a.family == af_inet) || (a.family == af_inet6)) ≡ true) × (length a.rest + 4 ≤ address_size)

-- What the client gets to see: the port with its low byte first, and zeros behind the address.
abbrev pub given : Sockaddr → List ℕ
given a =
    (length a.rest + 4)
    ∷ a.family
    ∷ a.low
    ∷ a.high
    ∷ (a.rest ++ drop (length a.rest + 4) (zeros address_size))

bytes_of-has_room : (a : Sockaddr) → IsInet a → has_room (bytes_of a) ≡ true
bytes_of-has_room a (known, fits) = ground arith

-- An address that has been noted is not asked for again, and is what the client is given.
completed-given :
    (name : ℕ × List ℕ) (a : Sockaddr) (field g : ObjectAddress)
    → IsInet a
    → set_address (bytes_of a) field ≡ some g
    → (completed name g ≡ some g) × (get_address g zeroed ≡ given a)
unfolding completed
completed-given (error, address) a field g (known, fits) noted =
    let (h, set, bytes) =
      set_address-bytes (length a.rest + 4) a.family a.high a.low a.rest field known refl fits in
    let same : h ≡ g = some-injective h g (sym set ∙ noted) in
    let (k, set', got) =
      get_address-set_address (length a.rest + 4) a.family a.high a.low a.rest field zeroed known
        refl fits in
    let same' : k ≡ g = some-injective k g (sym set' ∙ noted) in
    let valid : is_address_valid g ≡ true =
      subst (λ x. is_address_valid x ≡ true) same (valid_bytes (length a.rest) _ h bytes) in
    (rw valid refl, subst (λ x. get_address x zeroed ≡ given a) same' got)

connected_addresses :
    (names : Names) (s : SocketObject) (local remote : ObjectAddress)
    → completed names.local_name s.local_address ≡ some local
    → completed names.peer_name s.remote_address ≡ some remote
    → addresses_at names connected s ≡ some (local, remote)
unfolding addresses_at
connected_addresses names s local remote h k = rw (addresses_at, h, k) refl

-- What a connected socket, whose addresses are noted, sends to a client that takes it.
connected_sends :
    (env : Environment) (names : Names) (how : How) (o : ℕ) (f : Filter) (s : SocketObject)
    → f.objects o ≡ s
    → completed names.local_name s.local_address ≡ some s.local_address
    → completed names.peer_name s.remote_address ≡ some s.remote_address
    → ((es : List Effect) (n : Notification) → env.user_client es n ≡ some 0)
    → (g : Filter) × (handle_event env names connected how o f ≡ some g)
      × (g.trace
          ≡ f.trace
            ++ notified (record (init_socket_notification s FilterEvent.connected) {
              addresses = some (
                s.sa_family,
                get_address s.local_address zeroed,
                get_address s.remote_address zeroed,
              );
            })
              ∷ [])
unfolding handle_event handle_case
connected_sends env names how o f s same at_local at_remote takes =
    let h : addresses_at names connected (f.objects o) ≡ some (s.local_address, s.remote_address) =
      rw same (connected_addresses names s s.local_address s.remote_address at_local at_remote) in
    rw (handle_event, h) (_, refl, rw (==-self o, same, takes) refl)

-- A socket whose local and remote address, each of either family and no longer than an address
-- field, are noted by `FltBind` and by `FltConnectOut` or `FltConnectIn`, whatever was noted before:
-- the fields take them, and when it is connected and the client takes the notification, the client
-- is sent exactly one, with these two addresses, their ports in the order of the processor,
-- whatever names the kernel would give for the socket.
pub connected_bears_addresses :
    (env : Environment) (names : Names) (how : How) (o : ℕ) (f : Filter) (a b : Sockaddr)
    → IsInet a
    → IsInet b
    → ((es : List Effect) (n : Notification) → env.user_client es n ≡ some 0)
    → let s = f.objects o in
      (g h k : Filter) × (note_local o (bytes_of a) f ≡ some g)
      × (note_remote o (bytes_of b) g ≡ some h)
      × (handle_event env names connected how o h ≡ some k)
      × (k.trace
          ≡ f.trace
            ++ notified (record (init_socket_notification s FilterEvent.connected) {
              addresses = some (s.sa_family, given a, given b);
            })
              ∷ [])
unfolding handle_event handle_case
connected_bears_addresses env names how o f a b ka kb takes =
    let s = f.objects o in
    let (x, set_x, noted_x) = note_local-defined o (bytes_of a) f (bytes_of-has_room a ka) in
    let g : Filter = with_local o x f in
    let (y, set_y, noted_y) = note_remote-defined o (bytes_of b) g (bytes_of-has_room b kb) in
    let h : Filter = with_remote o y g in
    let (at_x, given_x) = completed-given names.local_name a _ x ka set_x in
    let (at_y, given_y) = completed-given names.peer_name b _ y kb set_y in
    let t : SocketObject = record s { local_address = x; remote_address = y } in
    let (k, handled, sends) =
      connected_sends env names how o h t (rw (==-self o) refl) at_x at_y takes in
    let told : List ℕ → List ℕ → List Effect = λ u v.
      f.trace
      ++ notified (record (init_socket_notification s FilterEvent.connected) {
        addresses = some (s.sa_family, u, v);
      })
        ∷ [] in
    (
      g,
      h,
      k,
      noted_x,
      noted_y,
      handled,
      sends ∙ (ap (λ u. told u (get_address y zeroed)) given_x ∙ ap (told (given a)) given_y),
    )
