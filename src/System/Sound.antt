-- ===== src/System/Sound.antt =====
-- What holds after any sequence of calls.
use mac_osx_network_sockets.Base.{
  ◌≡◌, refl, subst, ◌<◌, true, false, Option, none, some, List, [], ◌∷◌, contains, Bool-cases, inl,
  inr,
}
use mac_osx_network_sockets.Socket.Address.{has_room}
use mac_osx_network_sockets.Socket.Counters.{unreported_count}
use mac_osx_network_sockets.Filter.Data.Valid.{flt_data-IsValid}
use mac_osx_network_sockets.Filter.Data.Listed.{flt_data-NoneStranded}
use mac_osx_network_sockets.Filter.Service.Valid.{process_service_response-IsValid}
use mac_osx_network_sockets.Filter.Service.Listed.{process_service_response-NoneStranded}
use mac_osx_network_sockets.Filter.Close.Valid.{Sound}
use mac_osx_network_sockets.Filter.Life.{detach_old}
use mac_osx_network_sockets.Filter.Life.Valid.{IsNew, flt_attach-Sound, flt_detach-Sound}
use mac_osx_network_sockets.Filter.Notify.Valid.{
  change-Sound, NamesFit, flt_notify-Sound, resume_notify-Sound,
}
use mac_osx_network_sockets.Filter.Connect.{connect_in-notes, connect_out-notes, bind-notes}
use mac_osx_network_sockets.Filter.Injection.Valid.{injection_round-Sound}
use mac_osx_network_sockets.System.{
  Event, arrives, responds, attaches, detaches, notifies, connects_in, connects_out, binds, injects,
  resumes, System, handle, run,
}

-- Fewer than 2^32 packets of the socket wait for their report when a packet arrives; a new socket
-- object is not in `SocketsListToReport`, and no call waits for it; an address has its bytes and fits
-- into an address field.
abbrev pub HasRoom : Event → System → Type 0
HasRoom (arrives env kpi a o) s = unreported_count (s.filter.objects o).pending_queue < 4294967296
HasRoom (attaches started b so family) s =
    IsNew b (detach_old so s.filter) × (contains s.waiting b.name ≡ false)
HasRoom (responds env buffers rs) s = Unit
HasRoom (detaches o) s = Unit
HasRoom (notifies env names e how so) s = NamesFit names
HasRoom (connects_in o from) s = has_room from ≡ true
HasRoom (connects_out o to) s = has_room to ≡ true
HasRoom (binds o to) s = has_room to ≡ true
HasRoom (injects env) s = Unit
HasRoom (resumes o) s = Unit

-- This is so at each call of the sequence.
abbrev pub HaveRoom : List Event → Option System → Type 0
HaveRoom es none = Unit
HaveRoom [] (some s) = Unit
HaveRoom (e ∷ es) (some s) = HasRoom e s × HaveRoom es (handle e s)

-- Calls whose conditions hold in any state.
abbrev pub AlwaysRoom : List Event → Type 0
AlwaysRoom [] = Unit
AlwaysRoom (e ∷ es) = ((s : System) → HasRoom e s) × AlwaysRoom es

pub always-HaveRoom : (es : List Event) → AlwaysRoom es → (x : Option System) → HaveRoom es x
always-HaveRoom [] a none = tt
always-HaveRoom [] a (some s) = tt
always-HaveRoom (e ∷ es) a none = tt
always-HaveRoom (e ∷ es) (now, later) (some s) = (now s, always-HaveRoom es later (handle e s))

-- There is a state after the call, and it is sound.
abbrev Reaches : Option System → Type 0
Reaches x = (t : System) × (x ≡ some t) × Sound t.filter

pub handle-Sound : (e : Event) (s : System) → HasRoom e s → Sound s.filter → Reaches (handle e s)
unfolding handle
handle-Sound (arrives env kpi a o) s room (v, h) = (
  _,
  refl,
  (
    λ i. flt_data-IsValid env kpi a o s.filter v room i,
    flt_data-NoneStranded env kpi a o s.filter v h,
  ),
)
handle-Sound (responds env buffers rs) s room (v, h) = (
  _,
  refl,
  (
    λ i. process_service_response-IsValid env buffers rs s.filter v i,
    process_service_response-NoneStranded env buffers rs s.filter v h,
  ),
)
handle-Sound (attaches started b so family) s room v =
    (_, refl, flt_attach-Sound started b so family s.filter room.0 v)
handle-Sound (detaches o) s room v = (_, refl, flt_detach-Sound o s.filter v)
handle-Sound (notifies env names e how so) s room v =
    let (y, h, w) = flt_notify-Sound env names e how so s.filter room v in rw h (_, refl, w)
handle-Sound (connects_in o from) s room v =
    let (a, h) = connect_in-notes o from s.filter room in
    rw h (_, refl, change-Sound o _ s.filter (refl, refl, refl, refl, refl, refl) refl v)
handle-Sound (connects_out o to) s room v =
    let (a, h) = connect_out-notes o to s.filter room in
    rw h (_, refl, change-Sound o _ s.filter (refl, refl, refl, refl, refl, refl) refl v)
handle-Sound (binds o to) s room v =
    let (a, h) = bind-notes o to s.filter room in
    rw h (_, refl, change-Sound o _ s.filter (refl, refl, refl, refl, refl, refl) refl v)
handle-Sound (injects env) s room v = (_, refl, injection_round-Sound env s.filter v)
handle-Sound (resumes o) s room v = elim (Bool-cases (contains s.waiting o)) [
  | inl e ↦ rw e (_, refl, resume_notify-Sound o s.filter v)
  | inr e ↦ rw e (_, refl, v)
]

-- After any sequence of packets, responses of the service, attachings and detachings of sockets,
-- events and addresses of sockets, rounds of the injection thread, and continuations of calls that
-- wait, in any order and whatever the kernel and the client answer in each call, there is a state:
-- no address has been copied beyond its field. In it every socket object is valid and no packet is
-- stranded. It is so if it was so before, and at each call the addresses that it brings have their
-- bytes and are no longer than an address field, fewer than 2^32 packets of a socket wait for their
-- report when a packet of it arrives, and a new object is not in the list of those to report and no
-- call waits for it.
pub run-Sound :
    (es : List Event) (s : System)
    → HaveRoom es (some s)
    → Sound s.filter
    → (t : System) × (run es s ≡ some t) × Sound t.filter
unfolding run
run-Sound [] s room v = (s, refl, v)
run-Sound (e ∷ es) s (now, later) v =
    let (t, h, w) = handle-Sound e s now v in
    rw (run, h) (run-Sound es t (subst (HaveRoom es) h later) w)
