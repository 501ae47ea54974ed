-- ===== src/Filter/Life/Valid.antt =====
-- The attaching and detaching of sockets, the invariant of the socket objects and the list
-- `SocketsListToReport`.
use mac_osx_network_sockets.Base.{
  ℕ, ◌≡◌, refl, ap, ◌∙◌, Bool, true, false, ◌&&◌, Option, none, some, List, [], ◌∷◌, ◌==◌,
  if◌then◌else◌, update, add32, arith, contains, Distinct, Bool-cases, inl, inr,
}
use mac_osx_network_sockets.Packet.{data_all}
use mac_osx_network_sockets.Socket.{SocketObject}
use mac_osx_network_sockets.Socket.Counters.{IsValid, unreported_count}
use mac_osx_network_sockets.Socket.Purge.Valid.{purge-IsValid, purge-waiting, kept_packets-all}
use mac_osx_network_sockets.Filter.{Filter}
use mac_osx_network_sockets.Filter.Delivery.Valid.{AllValid}
use mac_osx_network_sockets.Filter.Delivery.Listed.{IsListed, ReportedBut}
use mac_osx_network_sockets.Filter.Service.{
  find_socket, retain_found, get_socket_object_ref, release_object,
}
use mac_osx_network_sockets.Filter.Service.Valid.{update-AllValid}
use mac_osx_network_sockets.Filter.Close.{purge_socket, detach_data}
use mac_osx_network_sockets.Filter.Close.Valid.{Sound}
use mac_osx_network_sockets.Filter.Life.{
  Birth, with_socket, insert_in_sockets_list, remove, leave_sockets_list, leave_report_list,
  remove_from_sockets_list, retain_object, lock_for_removal, flt_detach, detach_found, detach_old,
  is_socket_object_in_list, attach_new, flt_attach, new_object,
}

-- Two states of an object with the same packets, counters and flag.
abbrev pub SamePackets : SocketObject → SocketObject → Type 0
SamePackets s t =
    (t.pending_queue ≡ s.pending_queue)
    × (t.number_of_pending_in_packets ≡ s.number_of_pending_in_packets)
    × (t.number_of_pending_out_packets ≡ s.number_of_pending_out_packets)
    × (t.total_pending_bytes_in ≡ s.total_pending_bytes_in)
    × (t.total_pending_bytes_out ≡ s.total_pending_bytes_out)
    × (t.packets_waiting_for_reporting ≡ s.packets_waiting_for_reporting)

SamePackets-IsValid : (s t : SocketObject) → SamePackets s t → IsValid s → IsValid t
SamePackets-IsValid s t (q, ip, op, ib, ob, w) v = record {
  counts = record {
    in_packets = ground arith;
    out_packets = ground arith;
    in_bytes = ground arith;
    out_bytes = ground arith;
  };
  waiting = ground arith;
  tailed = rw q v.tailed;
  answered = rw q v.answered;
}

-- Every object is valid, and only those of `x` may be stranded.
abbrev pub SoundBut : (ℕ → Bool) → Filter → Type 0
SoundBut x f = AllValid f × IsListed f × ReportedBut x f

abbrev pub nobody : ℕ → Bool
nobody i = false

abbrev pub Sound-SoundBut : (f : Filter) → Sound f → SoundBut nobody f
Sound-SoundBut f (v, h) = (v, h.listed, h.reported)

abbrev pub SoundBut-Sound : (f : Filter) → SoundBut nobody f → Sound f
SoundBut-Sound f (v, l, r) = (v, record { listed = l; reported = r })

-- A change of an object that its packets do not see.
pub update-SoundBut :
    (x : ℕ → Bool) (o : ℕ) (t : SocketObject) (f : Filter)
    → SamePackets (f.objects o) t
    → t.inserted_in_sockets_list_to_report ≡ (f.objects o).inserted_in_sockets_list_to_report
    → SoundBut x f
    → SoundBut x (record f { objects = update f.objects o t })
update-SoundBut x o t f same flag (v, l, r) = (
  update-AllValid o t f v (SamePackets-IsValid (f.objects o) t same (v o)),
  record { distinct = l.distinct; flagged = λ i. ground (arith, l.flagged i) },
  λ i n m. ground (arith, r i, ap unreported_count same.0),
)

module _ (x : ℕ → Bool) (o : ℕ) (f : Filter) (h : SoundBut x f) where
  pub release_object-SoundBut : SoundBut x (release_object o f)
  unfolding release_object
  release_object-SoundBut = update-SoundBut x o _ f (refl, refl, refl, refl, refl, refl) refl h

  pub retain_object-SoundBut : SoundBut x (retain_object o f)
  unfolding retain_object
  retain_object-SoundBut = update-SoundBut x o _ f (refl, refl, refl, refl, refl, refl) refl h

  lock_for_removal-SoundBut : SoundBut x (lock_for_removal o f)
  lock_for_removal-SoundBut = update-SoundBut x o _ f (refl, refl, refl, refl, refl, refl) refl h

  insert_in_sockets_list-SoundBut : SoundBut x (insert_in_sockets_list o f)
  unfolding insert_in_sockets_list
  insert_in_sockets_list-SoundBut = elim (Bool-cases (f.objects o).inserted_in_sockets_list) [
    | inl e ↦ rw e h
    | inr e ↦ rw e (
        let (v, l, r) =
          update-SoundBut x o
            (record (f.objects o) {
              inserted_in_sockets_list = true;
              references = add32 (f.objects o).references 1;
            })
            f (refl, refl, refl, refl, refl, refl) refl h in
        (v, record { distinct = l.distinct; flagged = l.flagged }, r))
  ]

  leave_sockets_list-SoundBut : SoundBut x (leave_sockets_list o f)
  unfolding leave_sockets_list
  leave_sockets_list-SoundBut = elim (Bool-cases (f.objects o).inserted_in_sockets_list) [
    | inl e ↦ rw e (
        let (v, l, r) =
          update-SoundBut x o (record (f.objects o) { inserted_in_sockets_list = false }) f
            (refl, refl, refl, refl, refl, refl) refl h in
        (v, record { distinct = l.distinct; flagged = l.flagged }, r))
    | inr e ↦ rw e h
  ]

contains-remove_other :
    (o : ℕ) (xs : List ℕ) (i : ℕ) → (o == i) ≡ false → contains (remove o xs) i ≡ contains xs i
contains-remove_other o [] i e = refl
contains-remove_other o (x ∷ xs) i e = ground (arith, contains-remove_other o xs i)

contains-remove : (o : ℕ) (xs : List ℕ) → Distinct xs → contains (remove o xs) o ≡ false
contains-remove o [] d = refl
contains-remove o (x ∷ xs) d = ground (arith, contains-remove o xs d.1)

remove-Distinct : (o : ℕ) (xs : List ℕ) → Distinct xs → Distinct (remove o xs)
remove-Distinct o [] d = tt
remove-Distinct o (x ∷ xs) d = elim (Bool-cases (x == o)) [
  | inl e ↦ rw e d.1
  | inr e ↦ rw e (contains-remove_other o xs x (ground arith) ∙ d.0, remove-Distinct o xs d.1)
]

leave_report_list-SoundBut :
    (o : ℕ) (f : Filter)
    → SoundBut nobody f
    → SoundBut (update nobody o true) (leave_report_list o f)
unfolding leave_report_list
leave_report_list-SoundBut o f (v, l, r) =
    elim (Bool-cases (f.objects o).inserted_in_sockets_list_to_report) [
      | inl e ↦ rw e (
        update-AllValid o _ f v
            (SamePackets-IsValid (f.objects o) _ (refl, refl, refl, refl, refl, refl) (v o)),
        record {
          distinct = remove-Distinct o f.sockets_list_to_report l.distinct;
          flagged = λ i. ground (
            arith,
            l.flagged i,
            contains-remove o f.sockets_list_to_report l.distinct,
            contains-remove_other o f.sockets_list_to_report i,
          );
        },
        λ i n m. ground (arith, r i),
      )
      | inr e ↦ rw e (v, l, λ i n m. r i refl m)
    ]

-- With all its packets purged, the object itself is not stranded either.
detach_data-SoundBut :
    (o : ℕ) (f : Filter) → SoundBut (update nobody o true) f → SoundBut nobody (detach_data o f)
unfolding detach_data purge_socket
detach_data-SoundBut o f (v, l, r) =
    let (valid, queue, _) = purge-IsValid data_all (f.objects o) (v o) in
    let (flag, _) = purge-waiting data_all (f.objects o) in
    let empty = queue ∙ kept_packets-all (f.objects o).pending_queue in
    (
      λ i. update-AllValid o _ f v valid i,
      record { distinct = l.distinct; flagged = λ i. ground (arith, l.flagged i) },
      λ i n m. ground (arith, r i, ap unreported_count empty),
    )

either-SoundBut :
    (x : ℕ → Bool) (b : Bool) (f g : Filter)
    → SoundBut x f
    → SoundBut x g
    → SoundBut x (if b then f else g)
either-SoundBut x true f g hf hg = hf
either-SoundBut x false f g hf hg = hg

remove_from_sockets_list-SoundBut :
    (o : ℕ) (f : Filter)
    → SoundBut nobody f
    → SoundBut (update nobody o true) (remove_from_sockets_list o f)
unfolding remove_from_sockets_list
remove_from_sockets_list-SoundBut o f h =
    let but : ℕ → Bool = update nobody o true in
    let in_list = (f.objects o).inserted_in_sockets_list in
    let in_report = (f.objects o).inserted_in_sockets_list_to_report in
    let g : Filter = leave_report_list o (leave_sockets_list o f) in
    let k : Filter = if in_list then release_object o g else g in
    let hg = leave_report_list-SoundBut o _ (leave_sockets_list-SoundBut nobody o f h) in
    let hk =
      either-SoundBut but in_list (release_object o g) g (release_object-SoundBut but o g hg) hg in
    either-SoundBut but in_report (release_object o k) k (release_object-SoundBut but o k hk) hk

pub flt_detach-SoundBut :
    (o : ℕ) (f : Filter) → SoundBut nobody f → SoundBut nobody (flt_detach o f)
unfolding flt_detach
flt_detach-SoundBut o f h =
    let removed = remove_from_sockets_list-SoundBut o _ (retain_object-SoundBut nobody o f h) in
    let locked = lock_for_removal-SoundBut (update nobody o true) o _ removed in
    release_object-SoundBut nobody o _ (detach_data-SoundBut o _ locked)

retain_found-SoundBut :
    (f : Filter) (r : Option ℕ) → SoundBut nobody f → SoundBut nobody (retain_found f r).1
unfolding retain_found
retain_found-SoundBut f none h = h
retain_found-SoundBut f (some o) h =
    update-SoundBut nobody o _ f (refl, refl, refl, refl, refl, refl) refl h

pub get_socket_object_ref-SoundBut :
    (so : ℕ) (f : Filter) → SoundBut nobody f → SoundBut nobody (get_socket_object_ref so f).1
unfolding get_socket_object_ref
get_socket_object_ref-SoundBut so f h =
    retain_found-SoundBut f (find_socket f.objects so f.sockets_list) h

detach_found-SoundBut :
    (x : Option ℕ × Filter) → SoundBut nobody x.1 → SoundBut nobody (detach_found x)
detach_found-SoundBut (none, f) h = h
detach_found-SoundBut (some o, f) h = release_object-SoundBut nobody o _ (flt_detach-SoundBut o f h)

in_list-SoundBut :
    (x : Option ℕ × Filter) → SoundBut nobody x.1 → SoundBut nobody (is_socket_object_in_list x).1
in_list-SoundBut (none, f) h = h
in_list-SoundBut (some o, f) h = release_object-SoundBut nobody o f h

detach_old-SoundBut : (so : ℕ) (f : Filter) → SoundBut nobody f → SoundBut nobody (detach_old so f)
detach_old-SoundBut so f h =
    let (found, g) = is_socket_object_in_list (get_socket_object_ref so f) in
    let hg = in_list-SoundBut _ (get_socket_object_ref-SoundBut so f h) in
    either-SoundBut nobody found _ g
      (detach_found-SoundBut _ (get_socket_object_ref-SoundBut so g hg)) hg

-- The new object's name is that of no object in `SocketsListToReport`.
abbrev pub IsNew : Birth → Filter → Type 0
IsNew b f = contains f.sockets_list_to_report b.name ≡ false

new_object-IsValid : (so family sequence size : ℕ) → IsValid (new_object so family sequence size)
new_object-IsValid so family sequence size = ground arith

with_socket-SoundBut :
    (b : Birth) (so family : ℕ) (f : Filter)
    → IsNew b f
    → SoundBut nobody f
    → SoundBut nobody (with_socket b so family f).1
unfolding with_socket
with_socket-SoundBut b so family f fresh (v, l, r) =
    let t : SocketObject = new_object so family f.next_sequence b.receive_buffer_size in
    let born : Filter = record f {
      objects = update f.objects b.name t;
      next_sequence = add32 f.next_sequence 1;
    } in
    let sound : SoundBut nobody born = (
      update-AllValid b.name t f v
          (new_object-IsValid so family f.next_sequence b.receive_buffer_size),
      record { distinct = l.distinct; flagged = λ i. ground (arith, l.flagged i) },
      λ i n m. ground (arith, r i),
    ) in
    elim (Bool-cases (b.allocated && b.initialised)) [ inl e ↦ rw e sound | inr e ↦ rw e (v, l, r) ]

attach_new-SoundBut :
    (x : Option ℕ × Filter) → SoundBut nobody x.1 → SoundBut nobody (attach_new x).2
attach_new-SoundBut (none, f) h = h
attach_new-SoundBut (some o, f) h =
    release_object-SoundBut nobody o _ (insert_in_sockets_list-SoundBut nobody o f h)

pub flt_detach-Sound : (o : ℕ) (f : Filter) → Sound f → Sound (flt_detach o f)
flt_detach-Sound o f s = SoundBut-Sound _ (flt_detach-SoundBut o f (Sound-SoundBut f s))

pub flt_attach-Sound :
    (started : Bool) (b : Birth) (so family : ℕ) (f : Filter)
    → IsNew b (detach_old so f)
    → Sound f
    → Sound (flt_attach started b so family f).2
unfolding flt_attach
flt_attach-Sound false b so family f fresh s = s
flt_attach-Sound true b so family f fresh s = SoundBut-Sound _ (
    attach_new-SoundBut _ (
      with_socket-SoundBut b so family (detach_old so f) fresh
        (detach_old-SoundBut so f (Sound-SoundBut f s))))
