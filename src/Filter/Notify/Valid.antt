-- ===== src/Filter/Notify/Valid.antt =====
-- The events of a socket, the invariant of the socket objects and the list `SocketsListToReport`.
use mac_osx_network_sockets.Base.{
  ℕ, zero, suc, ◌≡◌, refl, true, Option, none, some, List, ◌==◌, inl, inr, Bool-cases,
}
use mac_osx_network_sockets.Packet.{Notification, data_all, data_inbound_only}
use mac_osx_network_sockets.Socket.Events.{
  SocketEvent, connecting, connected, disconnecting, disconnected, flush_read, shutdown,
  cantrecvmore, cantsendmore, closing, bound, other_event,
}
use mac_osx_network_sockets.Socket.{SocketObject}
use mac_osx_network_sockets.Socket.Address.{
  ObjectAddress, has_room, is_address_valid, set_address-defined,
}
use mac_osx_network_sockets.Filter.{Environment, Filter}
use mac_osx_network_sockets.Filter.Delivery.Listed.{traced-NoneStranded}
use mac_osx_network_sockets.Filter.Close.{How}
use mac_osx_network_sockets.Filter.Close.Valid.{
  Sound, reinject_socket-Sound, closing_data-Sound, shutdown_data-Sound,
}
use mac_osx_network_sockets.Filter.Life.Valid.{
  nobody, Sound-SoundBut, SoundBut-Sound, update-SoundBut, SamePackets, release_object-SoundBut,
  get_socket_object_ref-SoundBut,
}
use mac_osx_network_sockets.Filter.Notify.{
  Names, sent, send, change_object, completed, addresses_at, handle_case, handle_event, log_pre,
  must_wait, finish_or_wait, finish_notify, notify_object, flt_notify, resume_notify,
}

sent-Sound : (answer : Option ℕ) (n : Notification) (f : Filter) → Sound f → Sound (sent answer n f)
sent-Sound none n f s = s
sent-Sound (some zero) n f (v, h) = (v, traced-NoneStranded f _ refl refl h)
sent-Sound (some (suc e)) n f s = s

send-Sound : (env : Environment) (n : Notification) (f : Filter) → Sound f → Sound (send env n f)
send-Sound env n f s = sent-Sound (env.user_client f.trace n) n f s

pub change-Sound :
    (o : ℕ) (t : SocketObject) (f : Filter)
    → SamePackets (f.objects o) t
    → t.inserted_in_sockets_list_to_report ≡ (f.objects o).inserted_in_sockets_list_to_report
    → Sound f
    → Sound (change_object o t f)
change-Sound o t f same flag s =
    SoundBut-Sound _ (update-SoundBut nobody o t f same flag (Sound-SoundBut f s))

handle_case-Sound :
    (env : Environment) (e : SocketEvent) (how : How) (o : ℕ) (f : Filter)
    → Sound f
    → Sound (handle_case env e how o f)
unfolding handle_case
handle_case-Sound env connecting how o f s = s
handle_case-Sound env connected how o f s = send-Sound env _ f s
handle_case-Sound env closing how o f s = send-Sound env _ _ (closing_data-Sound o f s)
handle_case-Sound env disconnecting how o f s = reinject_socket-Sound env data_all o f s
handle_case-Sound env disconnected how o f s =
    send-Sound env _ _ (change-Sound o _ f (refl, refl, refl, refl, refl, refl) refl s)
handle_case-Sound env shutdown how o f s = shutdown_data-Sound env how o f s
handle_case-Sound env cantrecvmore how o f s = reinject_socket-Sound env data_inbound_only o f s
handle_case-Sound env flush_read how o f s = s
handle_case-Sound env cantsendmore how o f s = s
handle_case-Sound env bound how o f s = s
handle_case-Sound env other_event how o f s = s

-- The names that the kernel gives have their bytes and fit into an address.
abbrev pub NamesFit : Names → Type 0
NamesFit names = (has_room names.local_name.1 ≡ true) × (has_room names.peer_name.1 ≡ true)

pub completed-defined :
    (name : ℕ × List ℕ) (field : ObjectAddress)
    → has_room name.1 ≡ true
    → (a : ObjectAddress) × (completed name field ≡ some a)
unfolding completed
completed-defined (error, address) field room = elim (Bool-cases (is_address_valid field)) [
  | inl e ↦ rw e (field, refl)
  | inr e ↦ elim (Bool-cases (error == 0)) [
    | inl z ↦ rw (e, z) (set_address-defined address field room)
    | inr z ↦ rw (e, z) (field, refl)
  ]
]

addresses_at-defined :
    (names : Names) (e : SocketEvent) (s : SocketObject)
    → NamesFit names
    → (a : ObjectAddress × ObjectAddress) × (addresses_at names e s ≡ some a)
unfolding addresses_at
addresses_at-defined names connecting s (l, p) =
    let (a, h) = completed-defined names.local_name s.local_address l in
    rw (addresses_at, h) (_, refl)
addresses_at-defined names connected s (l, p) =
    let (a, h) = completed-defined names.local_name s.local_address l in
    let (b, k) = completed-defined names.peer_name s.remote_address p in
    rw (addresses_at, h, k) (_, refl)
addresses_at-defined names closing s fit = (_, refl)
addresses_at-defined names disconnecting s fit = (_, refl)
addresses_at-defined names disconnected s fit = (_, refl)
addresses_at-defined names shutdown s fit = (_, refl)
addresses_at-defined names cantrecvmore s fit = (_, refl)
addresses_at-defined names flush_read s fit = (_, refl)
addresses_at-defined names cantsendmore s fit = (_, refl)
addresses_at-defined names bound s fit = (_, refl)
addresses_at-defined names other_event s fit = (_, refl)

handle_event-Sound :
    (env : Environment) (names : Names) (e : SocketEvent) (how : How) (o : ℕ) (f : Filter)
    → NamesFit names
    → Sound f
    → (g : Filter) × (handle_event env names e how o f ≡ some g) × Sound g
unfolding handle_event
handle_event-Sound env names e how o f fit s =
    let (a, h) = addresses_at-defined names e (f.objects o) fit in
    rw (handle_event, h)
      (
        _,
        refl,
        handle_case-Sound env e how o _
            (change-Sound o _ f (refl, refl, refl, refl, refl, refl) refl s),
      )

finish_or_wait-Sound :
    (e : SocketEvent) (o : ℕ) (f : Filter) → Sound f → Sound (finish_or_wait e o f).1
unfolding finish_or_wait finish_notify
finish_or_wait-Sound e o f s = elim (Bool-cases (must_wait e (f.objects o))) [
  | inl w ↦ rw w s
  | inr w ↦
      let after = change-Sound o _ f (refl, refl, refl, refl, refl, refl) refl s in
      rw w (SoundBut-Sound _ (release_object-SoundBut nobody o _ (Sound-SoundBut _ after)))
]

notify_object-Sound :
    (env : Environment) (names : Names) (e : SocketEvent) (how : How) (x : Option ℕ × Filter)
    → NamesFit names
    → Sound x.1
    → (y : Option ℕ × Filter) × (notify_object env names e how x ≡ some y) × Sound y.1
unfolding notify_object
notify_object-Sound env names e how (none, f) fit s = (_, refl, s)
notify_object-Sound env names e how (some o, f) fit s =
    let before = change-Sound o _ f (refl, refl, refl, refl, refl, refl) refl s in
    let (g, h, handled) = handle_event-Sound env names e how o (log_pre e o f) fit before in
    rw (notify_object, h) (_, refl, finish_or_wait-Sound e o g handled)

-- Where the names fit, the call gives a state, and it is sound.
pub flt_notify-Sound :
    (env : Environment) (names : Names) (e : SocketEvent) (how : How) (so : ℕ) (f : Filter)
    → NamesFit names
    → Sound f
    → (y : Option ℕ × Filter) × (flt_notify env names e how so f ≡ some y) × Sound y.1
unfolding flt_notify
flt_notify-Sound env names e how so f fit s =
    notify_object-Sound env names e how _ fit
      (SoundBut-Sound _ (get_socket_object_ref-SoundBut so f (Sound-SoundBut f s)))

pub resume_notify-Sound : (o : ℕ) (f : Filter) → Sound f → Sound (resume_notify o f).1
unfolding resume_notify
resume_notify-Sound o f s = finish_or_wait-Sound disconnecting o f s
