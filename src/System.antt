-- ===== src/System.antt =====
-- The extension as a whole: any sequence of the calls that the kernel and the client make of it.
pub mod Sound
pub mod References
use mac_osx_network_sockets.Base.{
  ℕ, Bool, Option, none, some, List, [], ◌∷◌, if◌then◌else◌, contains,
}
use mac_osx_network_sockets.Packet.{Mbuf}
use mac_osx_network_sockets.Tags.{MbufKpi}
use mac_osx_network_sockets.Socket.Response.{Property}
use mac_osx_network_sockets.Filter.{Environment, Filter}
use mac_osx_network_sockets.Filter.Data.{Arrival, flt_data}
use mac_osx_network_sockets.Filter.Service.{process_service_response}
use mac_osx_network_sockets.Filter.Close.{How}
use mac_osx_network_sockets.Filter.Life.{Birth, flt_attach, flt_detach, remove}
use mac_osx_network_sockets.Filter.Notify.{Names, flt_notify, resume_notify}
use mac_osx_network_sockets.Filter.Connect.{flt_connect_in, flt_connect_out, flt_bind}
use mac_osx_network_sockets.Filter.Injection.{injection_round}
use mac_osx_network_sockets.Socket.Events.{SocketEvent}

-- A call from outside, with what the kernel and the client answer during it.
pub data Event : Type 0 where
  arrives : Environment → MbufKpi Mbuf → Arrival → ℕ → Event
  responds : Environment → List ℕ → List Property → Event
  -- the socket and its family
  attaches : (started : Bool) → Birth → ℕ → ℕ → Event
  detaches : ℕ → Event
  notifies : Environment → Names → SocketEvent → How → ℕ → Event
  -- an address that a connection or `bind` brings
  connects_in connects_out binds : ℕ → List ℕ → Event
  -- a round of the injection thread
  injects : Environment → Event
  -- a call of `FltNotify` that waits for the end of all injections of this object goes on
  resumes : ℕ → Event

-- The filter, and the objects for which calls of `FltNotify` wait, each as often as calls do.
pub record System : Type 0 where
  pub filter : Filter
  pub waiting : List ℕ

-- A call of `FltNotify` has ended, or it waits.
abbrev pub adjoin : Option ℕ → List ℕ → List ℕ
adjoin none os = os
adjoin (some o) os = o ∷ os

-- The state after a call that returns an error code.
abbrev pub after_call : List ℕ → Option (ℕ × Filter) → Option System
after_call os none = none
after_call os (some (error, g)) = some (record { filter = g; waiting = os })

abbrev pub after_notify : List ℕ → Option (Option ℕ × Filter) → Option System
after_notify os none = none
after_notify os (some (waits, g)) = some (record { filter = g; waiting = adjoin waits os })

-- The state after a call; `none` where an address has been copied beyond its field.
unfoldable pub handle : Event → System → Option System
handle (arrives env kpi a o) s = some (record s { filter = (flt_data env kpi a o s.filter).0 })
handle (responds env buffers rs) s =
    some (record s { filter = process_service_response env buffers rs s.filter })
handle (attaches started b so family) s =
    some (record s { filter = (flt_attach started b so family s.filter).2 })
handle (detaches o) s = some (record s { filter = flt_detach o s.filter })
handle (notifies env names e how so) s =
    after_notify s.waiting (flt_notify env names e how so s.filter)
handle (connects_in o from) s = after_call s.waiting (flt_connect_in o from s.filter)
handle (connects_out o to) s = after_call s.waiting (flt_connect_out o to s.filter)
handle (binds o to) s = after_call s.waiting (flt_bind o to s.filter)
handle (injects env) s = some (record s { filter = injection_round env s.filter })
handle (resumes o) s =
    if contains s.waiting o
    then after_notify (remove o s.waiting) (some (resume_notify o s.filter))
    else some s

-- The calls one after the other.
pub run : List Event → System → Option System
unfolding handle
run [] s = some s
run (e ∷ es) s = elim (handle e s) [ none ↦ none | some t ↦ run es t ]
