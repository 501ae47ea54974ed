-- ===== src/DataBuffer.antt =====
-- A communication buffer: NKE/NetworkKernelExtension/NkeDataBuffer.cpp. `copyDataMbuf` is in Pool.
pub mod Copy
use mac_osx_network_sockets.Base.{
  ℕ, ◌+◌, Bool, true, false, Option, none, some, ltb, ◌==◌, if◌then◌else◌,
}
use mac_osx_network_sockets.Pool.{add_size, sub_size}
use mac_osx_network_sockets.Queue.Bytes.{Memory, write_bytes, read_bytes}

-- `size` and `index`; the bytes at `data` and behind them; and the references of
-- `memoryDescriptor`, if there is one.
pub record DataBuffer : Type 0 where
  pub size : ℕ
  pub index : ℕ
  pub bytes : Memory
  pub memory_descriptor : Option ℕ

-- `withSize`; the answers are those of `new`, of `init` and of `IOMalloc`.
pub with_size : Bool → Bool → Option Memory → ℕ → ℕ → Option DataBuffer
with_size created is_initialised memory size index =
    if size == 0
    then none
    else if created
    then (if is_initialised
        then (elim memory [
          | none ↦ none
          | some m ↦
              some (record { size = size; index = index; bytes = m; memory_descriptor = none })
        ])
        else none)
    else none

-- How many bytes `write` and `read` move: the test adds the member `size` to the offset, and not the
-- number that is asked for.
pub bytes_to_move : ℕ → ℕ → DataBuffer → ℕ
bytes_to_move offset n b = if ltb b.size (add_size offset b.size) then sub_size b.size offset else n

-- `write`, from an address of another memory
pub write : ℕ → ℕ → Memory → ℕ → DataBuffer → ℕ × DataBuffer
unfolding bytes_to_move
write offset n source address b =
    let m = bytes_to_move offset n b in
    (m, record b { bytes = write_bytes offset (read_bytes address m source) b.bytes })

-- `read`, to an address of another memory
pub read : ℕ → ℕ → Memory → ℕ → DataBuffer → ℕ × Memory
unfolding bytes_to_move
read offset n target address b =
    let m = bytes_to_move offset n b in
    (m, write_bytes address (read_bytes offset m b.bytes) target)

-- The first lines of `getMemoryDescriptor`: a descriptor that is there is retained.
abbrev pub retain_descriptor : DataBuffer → Bool × DataBuffer
retain_descriptor b = elim b.memory_descriptor [
  | none ↦ (false, b)
  | some n ↦ (true, record b { memory_descriptor = some (n + 1) })
]

-- `getMemoryDescriptor`; `created` is the answer of `withAddress`, and `rival` the references of the
-- descriptor that a concurrent request has stored before the compare-and-swap, if one has. The call
-- at the end finds a descriptor.
unfoldable pub get_memory_descriptor : Bool → Option ℕ → DataBuffer → Bool × DataBuffer
get_memory_descriptor created rival b = elim b.memory_descriptor [
  | some n ↦ retain_descriptor b
  | none ↦
      if created
      then elim rival [
        | none ↦ retain_descriptor (record b { memory_descriptor = some 1 })
        | some n ↦ retain_descriptor (record b { memory_descriptor = some n })
      ]
      else (false, b)
]
