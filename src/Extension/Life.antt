-- ===== src/Extension/Life.antt =====
-- What the start and the stop of the extension leave.
use mac_osx_network_sockets.Base.{
  ◌≡◌, Bool, true, not, ◌&&◌, ◌||◌, none, some, arith, ◌==◌, if◌then◌else◌,
}
use mac_osx_network_sockets.Extension.{
  Kernel, Extension, init_socket_filter, start_filter, stop_filter, start, stop, is_none,
}

-- `start` succeeds whatever `startFilter` reports. The new filter is registered for a domain exactly
-- if there was no current filter and the kernel has registered that domain.
start_registers :
    (k : Kernel) (e : Extension)
    → (init_socket_filter k e.subsystem).0 ≡ 0
    → k.with_default ≡ true
    → let o = (start k e).1.filters e.next_filter in
      ((start k e).0 ≡ true)
      × ((start k e).1.socket_filter ≡ some e.next_filter)
      × (o.ipv4_is_registered ≡ (is_none e.current_filter && (k.register_ipv4 == 0)))
      × (o.ipv6_is_registered ≡ (is_none e.current_filter && (k.register_ipv6 == 0)))
      × (o.references ≡ (if is_none e.current_filter then 2 else 1))
unfolding start start_filter
start_registers k e ok made = ground arith

-- Has the kernel refused to unregister a domain that it had registered?
abbrev pub is_refused : Kernel → Kernel → Bool
is_refused k l =
    ((k.register_ipv4 == 0) && not (l.unregister_ipv4 == 0))
    || ((k.register_ipv6 == 0) && not (l.unregister_ipv6 == 0))

-- `stop` after a successful `start`, of an extension that had no filter: the extension has no filter
-- any more. If the kernel unregisters what it had registered, no reference to the filter is left,
-- it is registered for no domain, and another may become the current one; otherwise one reference is
-- left, and it stays the current filter.
pub start_stop_lem :
    (k l : Kernel) (e : Extension)
    → (init_socket_filter k e.subsystem).0 ≡ 0
    → k.with_default ≡ true
    → e.current_filter ≡ none
    → let t = stop l (start k e).1 in
      let o = t.filters e.next_filter in
      (t.socket_filter ≡ none)
      × (o.references ≡ (if is_refused k l then 1 else 0))
      × (t.current_filter ≡ (if is_refused k l then some e.next_filter else none))
      × ((o.ipv4_is_registered || o.ipv6_is_registered) ≡ is_refused k l)
unfolding start start_filter stop stop_filter
start_stop_lem k l e ok made free = ground arith
