-- ===== src/Filter/Injection/Valid.antt =====
-- The injection thread, the invariant of the socket objects and the list `SocketsListToReport`.
use mac_osx_network_sockets.Base.{ℕ, List, [], ◌∷◌, inl, inr, Bool-cases}
use mac_osx_network_sockets.Packet.{data_all}
use mac_osx_network_sockets.Filter.{Environment, Filter}
use mac_osx_network_sockets.Filter.Delivery.Valid.{deliver_waiting-IsValid}
use mac_osx_network_sockets.Filter.Delivery.Listed.{deliver_waiting-NoneStranded}
use mac_osx_network_sockets.Filter.Close.Valid.{Sound, reinject_socket-Sound}
use mac_osx_network_sockets.Filter.Life.Valid.{
  nobody, Sound-SoundBut, SoundBut-Sound, retain_object-SoundBut, release_object-SoundBut,
}
use mac_osx_network_sockets.Filter.Injection.{
  is_empty, select_sockets, reinject_sockets, injection_round,
}

pub select_sockets-Sound : (os : List ℕ) (f : Filter) → Sound f → Sound (select_sockets os f).1
unfolding select_sockets
select_sockets-Sound [] f s = s
select_sockets-Sound (o ∷ os) f s = elim (Bool-cases (is_empty (f.objects o).pending_queue)) [
  | inl e ↦ rw e (select_sockets-Sound os f s)
  | inr e ↦ rw e (
      select_sockets-Sound os _
        (SoundBut-Sound _ (retain_object-SoundBut nobody o f (Sound-SoundBut f s))))
]

pub reinject_sockets-Sound :
    (env : Environment) (os : List ℕ) (f : Filter) → Sound f → Sound (reinject_sockets env os f)
unfolding reinject_sockets
reinject_sockets-Sound env [] f s = s
reinject_sockets-Sound env (o ∷ os) f s =
    let t = reinject_socket-Sound env data_all o f s in
    reinject_sockets-Sound env os _
      (SoundBut-Sound _ (release_object-SoundBut nobody o _ (Sound-SoundBut _ t)))

pub injection_round-Sound :
    (env : Environment) (f : Filter) → Sound f → Sound (injection_round env f)
unfolding injection_round
injection_round-Sound env f s =
    let (os, g) = select_sockets f.sockets_list f in
    let (v, h) = reinject_sockets-Sound env os g (select_sockets-Sound f.sockets_list f s) in
    (deliver_waiting-IsValid env _ v, deliver_waiting-NoneStranded env _ h)
