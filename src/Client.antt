-- ===== src/Client.antt =====
-- The client program, NkeClient/NkeClient/main.cpp: what it maps and gives back, and how it answers
-- the notifications that it takes out of the queue. What IOKit answers is a parameter.
pub mod Cleanup
pub mod Answer
use mac_osx_network_sockets.Base.{
  ℕ, zero, suc, ◌+◌, Bool, true, false, Option, none, some, List, [], ◌∷◌, ◌++◌, ◌==◌,
  if◌then◌else◌, update,
}
use mac_osx_network_sockets.Packet.{FilterEvent, data_in, data_out, Notification}
use mac_osx_network_sockets.Pool.{buffers_number}
use mac_osx_network_sockets.Socket.Response.{Property, permission, unknown}
use mac_osx_network_sockets.UserClient.Memory.{socket_data_base}

-- `NkeSocketFilterServiceResponse`
pub record Response : Type 0 where
  pub buffers_to_release : List ℕ
  pub properties : List Property

abbrev pub is_data : FilterEvent → Bool
is_data data_in = true
is_data data_out = true
is_data _ = false

-- The entry that lets the data pass, and the one that ends the array, which is zero but for its type
abbrev pub allowing : Notification → Property
allowing n = record {
  type = permission;
  data_index = n.data_index;
  socket = n.socket;
  socket_sequence = n.socket_sequence;
  allow_data = 1;
}

abbrev pub last_property : Property
last_property = record {
  type = unknown;
  data_index = 0;
  socket = 0;
  socket_sequence = 0;
  allow_data = 0;
}

-- The response to a notification of data; there is none to others.
pub respond_to : Notification → Option Response
respond_to n =
    if is_data n.event
    then some
        (record { buffers_to_release = n.buffers; properties = allowing n ∷ last_property ∷ [] })
    else none

-- One call of `IODataQueueDequeue`: its status, the entry, and the status of the call that sends the
-- response, if there is one.
pub record Taken : Type 0 where
  pub status : ℕ
  pub notification : Notification
  pub sent : ℕ

-- The two nested loops: `kr`, and the responses in their order.
pub serve : List Taken → ℕ → ℕ × List Response
serve [] kr = (kr, [])
serve (d ∷ ds) kr =
    if d.status == 0
    then elim (respond_to d.notification) [
      | none ↦ serve ds 0
      | some r ↦ let (last, rs) = serve ds d.sent in (last, r ∷ rs)
    ]
    else serve ds d.status

-- The answers of IOKit: the port, zero for none; for a type of memory the status and the address of
-- `IOConnectMapMemory`; the statuses of `IOConnectSetNotificationPort` and of
-- `IOConnectUnmapMemory`; and what the loops take out of the queue.
pub record Iokit : Type 0 where
  pub port : ℕ
  pub map_memory : ℕ → ℕ × ℕ
  pub set_port : ℕ
  pub unmap_memory : ℕ → ℕ
  pub dequeued : List Taken

-- A memory that has been mapped, and one that has been unmapped at an address; and the port.
pub data Call : Type 0 where
  mapped : ℕ → Call
  unmapped : ℕ → ℕ → Call
  destroyed : ℕ → Call

-- The variables of `NkeSocketHandler`, and the calls that it has made.
pub record Handler : Type 0 where
  pub shared_buffers : ℕ → ℕ
  pub address : ℕ
  pub kr : ℕ
  pub calls : List Call

-- `kIOReturnError`
abbrev pub io_return_error : ℕ
io_return_error = 0xe00002bc

-- `kt_NkeNotifyTypeSocketFilter`
abbrev pub queue_type : ℕ
queue_type = 1

-- The loop that maps the communication buffers, with `n` rounds left; false is `goto exit`.
pub map_buffers : Iokit → ℕ → ℕ → Handler → Bool × Handler
map_buffers io zero i h = (true, h)
map_buffers io (suc n) i h =
    let (status, address) = io.map_memory (socket_data_base + i) in
    let t : Handler = record h {
      shared_buffers = update h.shared_buffers i address;
      kr = status;
    } in
    let rest =
      map_buffers io n (i + 1)
        (record t { calls = h.calls ++ mapped (socket_data_base + i) ∷ [] }) in
    if status == 0 then rest else (false, t)

-- The loop that unmaps them
pub unmap_buffers : Iokit → ℕ → ℕ → Handler → Handler
unmap_buffers io zero i h = h
unmap_buffers io (suc n) i h =
    let t : Handler = record h {
      kr = io.unmap_memory (socket_data_base + i);
      calls = h.calls ++ unmapped (socket_data_base + i) (h.shared_buffers i) ∷ [];
    } in
    unmap_buffers io n (i + 1) (if h.shared_buffers i == 0 then h else t)

-- From the label `exit` on, behind that loop
unmap_queue : Iokit → Handler → Handler
unmap_queue io h =
    let t : Handler = if h.address == 0 then h else record h {
      kr = io.unmap_memory queue_type;
      calls = h.calls ++ unmapped queue_type h.address ∷ [];
    } in
    if io.port == 0 then t else record t { calls = t.calls ++ destroyed io.port ∷ [] }

-- What stands between the loop that maps and `exit`
pub set_up_queue : Iokit → Handler → Handler
set_up_queue io h =
    if io.set_port == 0
    then (let (status, address) = io.map_memory queue_type in
        if status == 0
        then (let (last, responses) = serve io.dequeued 0 in
            record h { address = address; kr = last; calls = h.calls ++ mapped queue_type ∷ [] })
        else record h { address = address; kr = status })
    else record h { kr = io.set_port }

-- What stands between the allocation of the port and `exit`
set_up : Iokit → Handler → Handler
set_up io h =
    let (complete, t) =
      map_buffers io buffers_number 0 (record h { shared_buffers = λ _. 0; kr = 0 }) in
    if complete then set_up_queue io t else t

-- `NkeSocketHandler`; `garbage` is what `sharedBuffers` holds before it is written.
pub nke_socket_handler : Iokit → (ℕ → ℕ) → Handler
nke_socket_handler io garbage =
    let h : Handler = record {
      shared_buffers = garbage;
      address = 0;
      kr = io_return_error;
      calls = [];
    } in
    unmap_queue io (unmap_buffers io buffers_number 0 (if io.port == 0 then h else set_up io h))
