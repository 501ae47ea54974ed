-- ===== src/Filter/Life.antt =====
-- The life of a socket object: `withSocket`, `insertInSocketsList` and `removeFromSocketsList` of
-- NKE/NetworkKernelExtension/NkeSocketObject.cpp, `FltAttach` and `FltDetach` of NkeSocketFilter.cpp.
pub mod Valid
pub mod Ends
pub mod References
use mac_osx_network_sockets.Base.{
  ℕ, ◌+◌, Bool, true, false, not, ◌&&◌, Option, none, some, List, [], ◌∷◌, ◌++◌, ◌==◌, ltb,
  if◌then◌else◌, update, add32, sub32,
}
use mac_osx_network_sockets.Packet.{data_all}
use mac_osx_network_sockets.Pool.{enomem}
use mac_osx_network_sockets.Socket.{SocketObject, capturing_all}
use mac_osx_network_sockets.Socket.Address.{no_address}
use mac_osx_network_sockets.Socket.Detach.{start_removal}
use mac_osx_network_sockets.Filter.{Filter, enoent}
use mac_osx_network_sockets.Filter.Close.{purge_socket, detach_data}
use mac_osx_network_sockets.Filter.Service.{get_socket_object_ref, release_object}

-- What the kernel gives `withSocket`: the new object's name, whether there is memory for it and for
-- its locks, and the size that `sock_getsockopt` writes.
pub record Birth : Type 0 where
  pub name : ℕ
  pub allocated : Bool
  pub initialised : Bool
  pub receive_buffer_size : ℕ

-- An `SInt32` in a `UInt64`
abbrev sign_extended : ℕ → ℕ
sign_extended n = if ltb n 2147483648 then n else n + 18446744069414584320

-- The fields that `withSocket` sets; an `OSObject` is zeroed before.
abbrev pub new_object : ℕ → ℕ → ℕ → ℕ → SocketObject
new_object so family sequence receive_buffer_size = record {
  socket = so;
  socket_sequence = sign_extended sequence;
  pending_queue = [];
  pending_data_next_index = 0;
  deadlined_packets = 0;
  total_pending_bytes_out = 0;
  number_of_pending_out_packets = 0;
  total_pending_bytes_in = 0;
  number_of_pending_in_packets = 0;
  packets_waiting_for_reporting = 0;
  capturing_mode = capturing_all;
  event_flags = record { pre = λ n. false; post = λ n. false };
  disconnected = false;
  lock_count = 1;
  orig_receive_buffer_size = receive_buffer_size;
  inserted_in_sockets_list_to_report = false;
  references = 1;
  inserted_in_sockets_list = false;
  sa_family = family;
  local_address = no_address;
  remote_address = no_address;
}

unfoldable pub with_socket : Birth → ℕ → ℕ → Filter → Option ℕ × Filter
with_socket b so family f =
    if b.allocated && b.initialised
    then (
      some b.name,
      record f {
        objects =
            update f.objects b.name (new_object so family f.next_sequence b.receive_buffer_size);
        next_sequence = add32 f.next_sequence 1;
      },
    )
    else (none, f)

unfoldable pub insert_in_sockets_list : ℕ → Filter → Filter
insert_in_sockets_list o f =
    let s = f.objects o in
    if s.inserted_in_sockets_list then f else record f {
      sockets_list = o ∷ f.sockets_list;
      objects =
          update f.objects o
            (record s { inserted_in_sockets_list = true; references = add32 s.references 1 });
    }

-- `TAILQ_REMOVE`
abbrev pub remove : ℕ → List ℕ → List ℕ
remove o [] = []
remove o (x ∷ xs) = if x == o then xs else x ∷ remove o xs

-- The part of `removeFromSocketsList` under each of the two locks.
pub leave_sockets_list : ℕ → Filter → Filter
leave_sockets_list o f =
    let s = f.objects o in
    if s.inserted_in_sockets_list
    then record f {
      sockets_list = remove o f.sockets_list;
      objects = update f.objects o (record s { inserted_in_sockets_list = false });
    }
    else f

pub leave_report_list : ℕ → Filter → Filter
leave_report_list o f =
    let s = f.objects o in
    if s.inserted_in_sockets_list_to_report
    then record f {
      sockets_list_to_report = remove o f.sockets_list_to_report;
      objects = update f.objects o (record s { inserted_in_sockets_list_to_report = false });
    }
    else f

-- The references of the lists that the object has left are given back at the end.
pub remove_from_sockets_list : ℕ → Filter → Filter
unfolding leave_sockets_list leave_report_list
remove_from_sockets_list o f =
    let was_in_sockets_list = (f.objects o).inserted_in_sockets_list in
    let was_in_report_list = (f.objects o).inserted_in_sockets_list_to_report in
    let g = leave_report_list o (leave_sockets_list o f) in
    let h = if was_in_sockets_list then release_object o g else g in
    if was_in_report_list then release_object o h else h

-- `retain`
pub retain_object : ℕ → Filter → Filter
retain_object o f = record f {
  objects =
      update f.objects o (record (f.objects o) { references = add32 (f.objects o).references 1 });
}

-- `acquireDetachingLockForRemoval`, when no other thread holds the lock.
abbrev pub lock_for_removal : ℕ → Filter → Filter
lock_for_removal o f = record f {
  objects =
      update f.objects o
        (record (f.objects o) { lock_count = start_removal (f.objects o).lock_count });
}

-- `FltDetach` of the object with this name; its last wait is for counters that the purge has set to
-- zero.
pub flt_detach : ℕ → Filter → Filter
unfolding retain_object remove_from_sockets_list
flt_detach o f =
    release_object o
      (detach_data o (lock_for_removal o (remove_from_sockets_list o (retain_object o f))))

-- `NkeIsSocketObjectInList`
abbrev pub is_socket_object_in_list : Option ℕ × Filter → Bool × Filter
is_socket_object_in_list (none, f) = (false, f)
is_socket_object_in_list (some o, f) = (true, release_object o f)

-- An object of the same socket, whose detaching was missed, is detached first.
abbrev pub detach_found : Option ℕ × Filter → Filter
detach_found (none, f) = f
detach_found (some o, f) = release_object o (flt_detach o f)

abbrev pub detach_old : ℕ → Filter → Filter
detach_old so f =
    let (found, g) = is_socket_object_in_list (get_socket_object_ref so f) in
    if found then detach_found (get_socket_object_ref so g) else g

-- The end of `FltAttach`: the error, the cookie and the new state.
abbrev pub attach_new : Option ℕ × Filter → ℕ × Option ℕ × Filter
attach_new (none, f) = (enomem, none, f)
attach_new (some o, f) = (0, some o, release_object o (insert_in_sockets_list o f))

-- `FltAttach`; `started` says whether `gSocketFilter` is set.
unfoldable pub flt_attach : Bool → Birth → ℕ → ℕ → Filter → ℕ × Option ℕ × Filter
unfolding insert_in_sockets_list flt_detach with_socket
flt_attach started b so family f =
    if started then attach_new (with_socket b so family (detach_old so f)) else (enoent, none, f)
