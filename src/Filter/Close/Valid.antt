-- ===== src/Filter/Close/Valid.antt =====
-- The ends of a socket, the invariant of the socket objects and the list `SocketsListToReport`.
use mac_osx_network_sockets.Base.{ℕ, refl, ◌∙◌, update, arith}
use mac_osx_network_sockets.Packet.{DirectionType, data_all, data_inbound_only, data_outbound_only}
use mac_osx_network_sockets.Socket.Reinject.Valid.{reinject-IsValid, reinject-waiting}
use mac_osx_network_sockets.Socket.Purge.Valid.{purge-IsValid, purge-waiting}
use mac_osx_network_sockets.Filter.{Environment, Filter}
use mac_osx_network_sockets.Filter.Delivery.Valid.{AllValid}
use mac_osx_network_sockets.Filter.Delivery.Listed.{
  NoneStranded, update-NoneStranded, traced-NoneStranded,
}
use mac_osx_network_sockets.Filter.Service.Valid.{update-AllValid}
use mac_osx_network_sockets.Filter.Close.{
  How, shut_rd, shut_wr, shut_rdwr, unknown_how, purge_socket, reinject_socket, detach_data,
  closing_data, shutdown_data,
}

-- Every socket object is valid, and no packet is stranded.
abbrev pub Sound : Filter → Type 0
Sound f = AllValid f × NoneStranded f

purge_socket-Sound :
    (type : DirectionType) (o : ℕ) (f : Filter) → Sound f → Sound (purge_socket type o f)
unfolding purge_socket
purge_socket-Sound type o f (v, h) =
    let p = purge-IsValid type (f.objects o) (v o) in
    let (flag, fewer) = purge-waiting type (f.objects o) in
    (
      λ i. update-AllValid o _ f v p.0 i,
      traced-NoneStranded (record f { objects = update f.objects o _ }) _ refl refl
          (update-NoneStranded o _ f flag (λ n. omega (arith, fewer)) h),
    )

pub reinject_socket-Sound :
    (env : Environment) (type : DirectionType) (o : ℕ) (f : Filter)
    → Sound f
    → Sound (reinject_socket env type o f)
unfolding reinject_socket
reinject_socket-Sound env type o f (v, h) =
    let p = reinject-IsValid env.inject_error env.uninitialised type env.now (f.objects o) (v o) in
    let (flag, same) =
      reinject-waiting env.inject_error env.uninitialised type env.now (f.objects o)
        (v o).answered in
    (
      λ i. update-AllValid o _ f v p i,
      traced-NoneStranded (record f { objects = update f.objects o _ }) _ refl refl
          (update-NoneStranded o _ f flag (λ n. same ∙ n) h),
    )

pub detach_data-Sound : (o : ℕ) (f : Filter) → Sound f → Sound (detach_data o f)
unfolding detach_data
detach_data-Sound o f s = purge_socket-Sound data_all o f s

pub closing_data-Sound : (o : ℕ) (f : Filter) → Sound f → Sound (closing_data o f)
unfolding closing_data
closing_data-Sound o f s = purge_socket-Sound data_inbound_only o f s

pub shutdown_data-Sound :
    (env : Environment) (how : How) (o : ℕ) (f : Filter)
    → Sound f
    → Sound (shutdown_data env how o f)
unfolding shutdown_data
shutdown_data-Sound env shut_rdwr o f s =
    purge_socket-Sound data_inbound_only o _ (reinject_socket-Sound env data_outbound_only o f s)
shutdown_data-Sound env shut_wr o f s = reinject_socket-Sound env data_outbound_only o f s
shutdown_data-Sound env shut_rd o f s = purge_socket-Sound data_inbound_only o f s
shutdown_data-Sound env unknown_how o f s = s
