-- ===== src/Filter/References.antt =====
-- The references of the socket objects: one for each list that an object stands in, and those that a
-- running call has taken.
use mac_osx_network_sockets.Base.{
  ℕ, ◌+◌, ◌%◌, ◌≡◌, refl, Bool, true, false, ◌==◌, if◌then◌else◌, update, arith,
}
use mac_osx_network_sockets.Socket.{SocketObject}
use mac_osx_network_sockets.Socket.Counters.{one_if}
use mac_osx_network_sockets.Socket.Roots.{SameRoots}
use mac_osx_network_sockets.Filter.{Filter}

-- The references of one object, of which `n` are taken by a running call.
abbrev pub HasReferences : ℕ → SocketObject → Type 0
HasReferences n s =
    s.references
    ≡ (one_if s.inserted_in_sockets_list + one_if s.inserted_in_sockets_list_to_report + n)
      % 4294967296

-- So it is of every object, with `taken` of its references taken.
pub record Counted (taken : ℕ → ℕ) (f : Filter) : Type 0 where
  pub counted : (i : ℕ) → HasReferences (taken i) (f.objects i)

-- One more reference to `o` is taken.
abbrev pub bump : ℕ → (ℕ → ℕ) → ℕ → ℕ
bump o taken i = if o == i then taken i + 1 else taken i

pub update-Counted :
    (x y : ℕ → ℕ) (o : ℕ) (t : SocketObject) (f : Filter)
    → ((i : ℕ) → (o == i) ≡ false → y i ≡ x i)
    → HasReferences (y o) t
    → Counted x f
    → Counted y (record f { objects = update f.objects o t })
update-Counted x y o t f same h c = record { counted = λ i. ground (arith, same i, c.counted i) }

pub SameRoots-HasReferences :
    (n : ℕ) (s t : SocketObject) → SameRoots s t → HasReferences n s → HasReferences n t
SameRoots-HasReferences n s t (r, l, k) h = ground arith

pub change-Counted :
    (x : ℕ → ℕ) (o : ℕ) (t : SocketObject) (f : Filter)
    → SameRoots (f.objects o) t
    → Counted x f
    → Counted x (record f { objects = update f.objects o t })
change-Counted x o t f same c =
    update-Counted x x o t f (λ i e. refl)
      (SameRoots-HasReferences (x o) (f.objects o) t same (c.counted o)) c

pub either-Counted :
    (x : ℕ → ℕ) (b : Bool) (f g : Filter)
    → Counted x f
    → Counted x g
    → Counted x (if b then f else g)
either-Counted x true f g c d = c
either-Counted x false f g c d = d
