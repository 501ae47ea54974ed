-- ===== src/UserClient/Memory.antt =====
-- What a user client maps, `clientMemoryForType` of NKE/NetworkKernelExtension/NkeIOUserClient.cpp
-- with `getSocketBufferMemoryDescriptor` of NkeSocketFilter.cpp.
use mac_osx_network_sockets.Base.{
  ℕ, ◌+◌, ◌-◌, ◌≡◌, Bool, false, not, ◌&&◌, Option, none, some, ltb, ◌==◌, if◌then◌else◌, update,
}
use mac_osx_network_sockets.Pool.{buffers_number}
use mac_osx_network_sockets.DataBuffer.{DataBuffer, get_memory_descriptor}
use mac_osx_network_sockets.UserClient.Session.{
  Status, success, no_memory, no_device, bad_argument, notify_type_max,
}

-- `kt_NkeAclTypeSocketDataBase`
abbrev pub socket_data_base : ℕ
socket_data_base = notify_type_max + 0x1000

-- The memory that a call hands out.
pub data Mapped : Type 0 where
  buffer_memory : ℕ → Mapped
  queue_memory : ℕ → Mapped

-- `dataBuffers` of `gSocketFilter`, if there is one, with its count; and the references of
-- `fSharedMemory` of a type.
pub record Memories : Type 0 where
  pub has_filter : Bool
  pub buffers_count : ℕ
  pub data_buffers : ℕ → DataBuffer
  pub shared_memory : ℕ → Option ℕ

-- `getSocketBufferMemoryDescriptor`; `created` and `rival` are those of `get_memory_descriptor`.
pub get_buffer_descriptor : Bool → Option ℕ → ℕ → Memories → Bool × Memories
get_buffer_descriptor created rival i s =
    if ltb i s.buffers_count
    then (let (found, b) = get_memory_descriptor created rival (s.data_buffers i) in
        (found, record s { data_buffers = update s.data_buffers i b }))
    else (false, s)

-- Is the type that of a communication buffer?
abbrev pub is_buffer_type : ℕ → Bool
is_buffer_type type =
    not (ltb type socket_data_base) && ltb type (socket_data_base + buffers_number)

-- Is it that of a queue?
abbrev pub is_queue_type : ℕ → Bool
is_queue_type type = not (type == 0) && ltb type notify_type_max

pub client_memory_for_type : Bool → Option ℕ → ℕ → Memories → Status × Option Mapped × Memories
client_memory_for_type created rival type s =
    if is_buffer_type type
    then (if s.has_filter
        then (let i = type - socket_data_base in
            let (found, t) = get_buffer_descriptor created rival i s in
            if found then (success, some (buffer_memory i), t) else (no_device, none, t))
        else (no_memory, none, s))
    else if is_queue_type type
    then elim (s.shared_memory type) [
      | none ↦ (no_memory, none, s)
      | some n ↦ (
        success,
        some (queue_memory type),
        record s { shared_memory = update s.shared_memory type (some (n + 1)) },
      )
    ]
    else (bad_argument, none, s)

-- The references to a memory, none if there is no descriptor.
abbrev references : Option ℕ → ℕ
references none = 0
references (some n) = n

abbrev pub references_of : Mapped → Memories → ℕ
references_of (buffer_memory i) s = references (s.data_buffers i).memory_descriptor
references_of (queue_memory t) s = references (s.shared_memory t)

-- The references to the memory that a call has found: those of a descriptor that is there, or that a
-- rival has stored, or the one of a new descriptor.
abbrev pub references_found : Option ℕ → Mapped → Memories → ℕ
references_found rival (queue_memory t) s = references (s.shared_memory t)
references_found rival (buffer_memory i) s = elim (s.data_buffers i).memory_descriptor [
  | some n ↦ n
  | none ↦ elim rival [ none ↦ 1 | some n ↦ n ]
]

abbrev pub type_of : Mapped → ℕ
type_of (buffer_memory i) = socket_data_base + i
type_of (queue_memory t) = t

-- On success the memory is that of the type, with one reference more, which is the caller's. On an
-- error there is no memory, and no reference has changed.
abbrev pub IsCountedFor : Option ℕ → ℕ → Memories → Status × Option Mapped × Memories → Type 0
IsCountedFor rival type s (success, some m, t) =
    (type_of m ≡ type) × (references_of m t ≡ references_found rival m s + 1)
IsCountedFor rival type s (_, none, t) = (m : Mapped) → references_of m t ≡ references_of m s
IsCountedFor rival type s (_, some m, t) = ⊥
