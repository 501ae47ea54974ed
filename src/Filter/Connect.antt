-- ===== src/Filter/Connect.antt =====
-- The callbacks of NKE/NetworkKernelExtension/NkeSocketFilter.cpp that only note an address, or let
-- the call pass. They are `none` where `bcopy` of the address writes beyond the field.
use mac_osx_network_sockets.Base.{ℕ, ◌≡◌, refl, ap, true, Option, none, some, List, update}
use mac_osx_network_sockets.Socket.Address.{
  ObjectAddress, has_room, set_address, set_address-defined,
}
use mac_osx_network_sockets.Filter.{Filter}

pub note_remote : ℕ → List ℕ → Filter → Option Filter
note_remote o address f =
    let s = f.objects o in
    elim (set_address address s.remote_address) [
      | none ↦ none
      | some a ↦ some (record f { objects = update f.objects o (record s { remote_address = a }) })
    ]

pub note_local : ℕ → List ℕ → Filter → Option Filter
note_local o address f =
    let s = f.objects o in
    elim (set_address address s.local_address) [
      | none ↦ none
      | some a ↦ some (record f { objects = update f.objects o (record s { local_address = a }) })
    ]

-- The error that is returned, which is zero, beside the state.
abbrev without_error : Option Filter → Option (ℕ × Filter)
without_error none = none
without_error (some f) = some (0, f)

-- `FltConnect`, with the error that it returns. One of the two addresses is not null; without one
-- the function reads from a null pointer, which is `none` here.
pub flt_connect : ℕ → Option (List ℕ) → Option (List ℕ) → Filter → Option (ℕ × Filter)
unfolding note_remote
flt_connect o (some to) from f = without_error (note_remote o to f)
flt_connect o none (some from) f = without_error (note_remote o from f)
flt_connect o none none f = none

pub flt_connect_in : ℕ → List ℕ → Filter → Option (ℕ × Filter)
unfolding flt_connect
flt_connect_in o from f = flt_connect o none (some from) f

pub flt_connect_out : ℕ → List ℕ → Filter → Option (ℕ × Filter)
unfolding flt_connect
flt_connect_out o to f = flt_connect o (some to) none f

pub flt_bind : ℕ → List ℕ → Filter → Option (ℕ × Filter)
unfolding note_local
flt_bind o to f = without_error (note_local o to f)

-- `FltSetoption`, `FltGetoption` and `FltListen`
abbrev pub flt_pass : ℕ → Filter → ℕ × Filter
flt_pass o f = (0, f)

-- The state with another remote address of an object, and with another local one.
abbrev pub with_remote : ℕ → ObjectAddress → Filter → Filter
with_remote o a f = record f {
  objects = update f.objects o (record (f.objects o) { remote_address = a });
}

abbrev pub with_local : ℕ → ObjectAddress → Filter → Filter
with_local o a f = record f {
  objects = update f.objects o (record (f.objects o) { local_address = a });
}

module _ (o : ℕ) (address : List ℕ) (f : Filter) (room : has_room address ≡ true) where
  -- An address that fits is noted, and nothing else changes.
  pub note_remote-defined :
      (a : ObjectAddress) × (set_address address (f.objects o).remote_address ≡ some a)
      × (note_remote o address f ≡ some (with_remote o a f))
  unfolding note_remote
  note_remote-defined =
      let (a, h) = set_address-defined address (f.objects o).remote_address room in
      (a, h, rw (note_remote, h) refl)

  pub note_local-defined :
      (a : ObjectAddress) × (set_address address (f.objects o).local_address ≡ some a)
      × (note_local o address f ≡ some (with_local o a f))
  unfolding note_local
  note_local-defined =
      let (a, h) = set_address-defined address (f.objects o).local_address room in
      (a, h, rw (note_local, h) refl)

  pub connect_in-notes :
      (a : ObjectAddress) × (flt_connect_in o address f ≡ some (0, with_remote o a f))
  unfolding flt_connect_in flt_connect
  connect_in-notes = let (a, _, k) = note_remote-defined in (a, ap without_error k)

  pub connect_out-notes :
      (a : ObjectAddress) × (flt_connect_out o address f ≡ some (0, with_remote o a f))
  unfolding flt_connect_out flt_connect
  connect_out-notes = let (a, _, k) = note_remote-defined in (a, ap without_error k)

  pub bind-notes : (a : ObjectAddress) × (flt_bind o address f ≡ some (0, with_local o a f))
  unfolding flt_bind
  bind-notes = let (a, _, k) = note_local-defined in (a, ap without_error k)
