-- ===== src/Filter/Notify/References.antt =====
-- The events of a socket and the references of the socket objects.
use mac_osx_network_sockets.Base.{
  ℕ, zero, suc, ◌≡◌, refl, subst, Option, none, some, arith, inl, inr, Option-cases, Bool-cases,
}
use mathlib.Core.Option.{some-injective}
use mac_osx_network_sockets.Packet.{Notification, data_all, data_inbound_only}
use mac_osx_network_sockets.Socket.Events.{
  SocketEvent, connecting, connected, disconnecting, disconnected, flush_read, shutdown,
  cantrecvmore, cantsendmore, closing, bound, other_event,
}
use mac_osx_network_sockets.Filter.{Environment, Filter}
use mac_osx_network_sockets.Filter.References.{Counted, bump, change-Counted}
use mac_osx_network_sockets.Filter.Close.{How, closing_data}
use mac_osx_network_sockets.Filter.Close.References.{
  purge_socket-Counted, reinject_socket-Counted, shutdown_data-Counted,
}
use mac_osx_network_sockets.Filter.Service.References.{
  taken_by, release_object-Counted, get_socket_object_ref-Counted,
}
use mac_osx_network_sockets.Filter.Notify.{
  Names, sent, addresses_at, handle_case, handle_event, log_pre, must_wait, finish_or_wait,
  finish_notify, notify_object, flt_notify, resume_notify,
}

module _ (x : ℕ → ℕ) where
  sent-Counted :
      (answer : Option ℕ) (n : Notification) (f : Filter)
      → Counted x f
      → Counted x (sent answer n f)
  sent-Counted none n f c = c
  sent-Counted (some zero) n f c = record { counted = c.counted }
  sent-Counted (some (suc e)) n f c = c

  handle_case-Counted :
      (env : Environment) (e : SocketEvent) (how : How) (o : ℕ) (f : Filter)
      → Counted x f
      → Counted x (handle_case env e how o f)
  unfolding handle_case closing_data
  handle_case-Counted env connecting how o f c = c
  handle_case-Counted env connected how o f c = sent-Counted _ _ _ c
  handle_case-Counted env closing how o f c =
      sent-Counted _ _ _ (purge_socket-Counted x data_inbound_only o f c)
  handle_case-Counted env disconnecting how o f c = reinject_socket-Counted x env data_all o f c
  handle_case-Counted env disconnected how o f c =
      sent-Counted _ _ _ (change-Counted x o _ f (refl, refl, refl) c)
  handle_case-Counted env shutdown how o f c = shutdown_data-Counted x env how o f c
  handle_case-Counted env cantrecvmore how o f c =
      reinject_socket-Counted x env data_inbound_only o f c
  handle_case-Counted env flush_read how o f c = c
  handle_case-Counted env cantsendmore how o f c = c
  handle_case-Counted env bound how o f c = c
  handle_case-Counted env other_event how o f c = c

  handle_event-Counted :
      (env : Environment) (names : Names) (e : SocketEvent) (how : How) (o : ℕ) (f g : Filter)
      → handle_event env names e how o f ≡ some g
      → Counted x f
      → Counted x g
  unfolding handle_event
  handle_event-Counted env names e how o f g h c =
      elim (Option-cases (addresses_at names e (f.objects o))) [
        | inl a ↦ absurd (ground (arith, h, a))
        | inr (a, k) ↦
            subst (Counted x) (some-injective _ _ (rw (handle_event, k) at h))
              (handle_case-Counted env e how o _ (change-Counted x o _ f (refl, refl, refl) c))
      ]

  finish_or_wait-Counted :
      (e : SocketEvent) (o : ℕ) (f : Filter)
      → Counted (bump o x) f
      → let (waits, g) = finish_or_wait e o f in Counted (taken_by waits x) g
  unfolding finish_or_wait finish_notify
  finish_or_wait-Counted e o f c = elim (Bool-cases (must_wait e (f.objects o))) [
    | inl w ↦ rw w c
    | inr w ↦
        rw w (release_object-Counted x o _ (change-Counted (bump o x) o _ f (refl, refl, refl) c))
  ]

notify_object-Counted :
    (x : ℕ → ℕ) (env : Environment) (names : Names) (e : SocketEvent) (how : How)
    (y z : Option ℕ × Filter)
    → notify_object env names e how y ≡ some z
    → Counted (taken_by y.0 x) y.1
    → Counted (taken_by z.0 x) z.1
unfolding notify_object
notify_object-Counted x env names e how (none, f) z h c =
    subst (λ w. Counted (taken_by w.0 x) w.1) (some-injective _ _ h) c
notify_object-Counted x env names e how (some o, f) z h c =
    let y : ℕ → ℕ = bump o x in
    let before : Counted y (log_pre e o f) = change-Counted y o _ f (refl, refl, refl) c in
    elim (Option-cases (handle_event env names e how o (log_pre e o f))) [
      | inl a ↦ absurd (ground (arith, h, a))
      | inr (g, k) ↦
          let handled = handle_event-Counted y env names e how o (log_pre e o f) g k before in
          subst (λ w. Counted (taken_by w.0 x) w.1)
            (some-injective _ _ (rw (notify_object, k) at h))
            (finish_or_wait-Counted x e o g handled)
    ]

-- A call that waits has taken the reference of its object; one that has ended has taken none.
pub flt_notify-Counted :
    (x : ℕ → ℕ) (env : Environment) (names : Names) (e : SocketEvent) (how : How) (so : ℕ)
    (f : Filter) (z : Option ℕ × Filter)
    → flt_notify env names e how so f ≡ some z
    → Counted x f
    → Counted (taken_by z.0 x) z.1
unfolding flt_notify
flt_notify-Counted x env names e how so f z h c =
    notify_object-Counted x env names e how _ z h (get_socket_object_ref-Counted x so f c)

pub resume_notify-Counted :
    (x : ℕ → ℕ) (o : ℕ) (f : Filter)
    → Counted (bump o x) f
    → let (waits, g) = resume_notify o f in Counted (taken_by waits x) g
unfolding resume_notify
resume_notify-Counted x o f c = finish_or_wait-Counted x disconnecting o f c
