-- ===== src/Filter/Injection.antt =====
-- `InjectionThreadRoutine` of NKE/NetworkKernelExtension/NkeSocketObject.cpp: one round of its endless
-- loop, in a build without the emulation of a user.
pub mod Valid
pub mod References
use mac_osx_network_sockets.Base.{ℕ, Bool, true, false, List, [], ◌∷◌, if◌then◌else◌}
use mac_osx_network_sockets.Packet.{Pkt, data_all}
use mac_osx_network_sockets.Filter.{Environment, Filter}
use mac_osx_network_sockets.Filter.Close.{reinject_socket}
use mac_osx_network_sockets.Filter.Delivery.{deliver_waiting_notifications}
use mac_osx_network_sockets.Filter.Life.{retain_object}
use mac_osx_network_sockets.Filter.Service.{release_object}

-- `TAILQ_EMPTY`
abbrev pub is_empty : List Pkt → Bool
is_empty [] = true
is_empty (p ∷ ps) = false

-- The `TAILQ_FOREACH`: the objects that have pending packets, retained.
pub select_sockets : List ℕ → Filter → List ℕ × Filter
select_sockets [] f = ([], f)
select_sockets (o ∷ os) f =
    if is_empty (f.objects o).pending_queue
    then select_sockets os f
    else (let (ls, g) = select_sockets os (retain_object o f) in (o ∷ ls, g))

-- The `while` over the local list.
pub reinject_sockets : Environment → List ℕ → Filter → Filter
reinject_sockets env [] f = f
reinject_sockets env (o ∷ os) f =
    reinject_sockets env os (release_object o (reinject_socket env data_all o f))

pub injection_round : Environment → Filter → Filter
unfolding select_sockets reinject_sockets
injection_round env f =
    let (os, g) = select_sockets f.sockets_list f in
    deliver_waiting_notifications env (reinject_sockets env os g)
