-- ===== src/Pool.antt =====
-- The communication buffers of NKE/NetworkKernelExtension/NkeSocketFilter.cpp and NkeDataBuffer.cpp:
-- the free list threaded through `freeBuffers`, and the copy of a packet into buffers.
-- The functions here run with no other thread between their steps, so each compare-and-swap
-- succeeds at once.
pub mod FreeList
pub mod Init
pub mod Copy
pub mod Deliver
pub mod Twice
pub mod Activities
use mac_osx_network_sockets.Base.{
  ℕ, zero, suc, ◌+◌, ◌-◌, ◌/◌, ◌%◌, Bool, true, false, ◌&&◌, Option, none, some, List, [], ◌∷◌,
  ◌++◌, ltb, ◌==◌, if◌then◌else◌, update, length, drop,
}

-- `kt_NkeSocketBuffersNumber`
abbrev pub buffers_number : ℕ
buffers_number = 40

-- `UINT8_MAX`: the end of the free list, the mark of a buffer in use, and the end of an index array.
abbrev pub uint8_max : ℕ
uint8_max = 255

-- The size that `withDefault` gives each buffer.
abbrev pub buffer_size : ℕ
buffer_size = 0x280000 / 40

abbrev pub enomem : ℕ
enomem = 12

-- `dataBuffers`, `freeBuffers` and `freeBuffersHead` of the filter; `contents i` are the bytes of
-- the buffer with index `i`.
pub record Pool : Type 0 where
  pub buffers_count : ℕ
  pub free_buffers : ℕ → ℕ
  pub free_buffers_head : ℕ
  pub contents : ℕ → List ℕ

-- The second loop of `withDefault`, from buffer `i` on, `n` rounds before the capacity is reached.
-- `create i` says whether `NkeDataBuffer::withSize` returns a buffer.
create_buffers : (ℕ → Bool) → ℕ → ℕ → Pool → Pool
create_buffers create zero i p = p
create_buffers create (suc n) i p =
    let rest = create_buffers create n (i + 1) (record p {
      buffers_count = p.buffers_count + 1;
      free_buffers = update p.free_buffers i p.free_buffers_head;
      free_buffers_head = i;
    }) in
    if create i then rest else p

pub with_default : (ℕ → Bool) → (ℕ → List ℕ) → Pool
unfolding create_buffers
with_default create memory = create_buffers create buffers_number 0 (record {
  buffers_count = 0;
  free_buffers = λ _. uint8_max;
  free_buffers_head = uint8_max;
  contents = memory;
})

-- `acquireSocketDataBufferForIO`, which yields the buffer's index.
pub acquire : Pool → Option ℕ × Pool
acquire p = if p.free_buffers_head == uint8_max then (none, p) else (
  some p.free_buffers_head,
  record p {
    free_buffers = update p.free_buffers p.free_buffers_head uint8_max;
    free_buffers_head = p.free_buffers p.free_buffers_head;
  },
)

-- `releaseSocketDataBufferFromIO`
pub release : ℕ → Pool → Pool
release i p =
    if ltb i buffers_number && (p.free_buffers i == uint8_max)
    then record p {
      free_buffers = update p.free_buffers i p.free_buffers_head;
      free_buffers_head = i;
    }
    else p

-- The loop of `releaseDataBuffers`, with `n` rounds left.
release_rounds : ℕ → List ℕ → Pool → Pool
release_rounds zero is p = p
release_rounds (suc n) [] p = p
release_rounds (suc n) (i ∷ is) p = if i == uint8_max then p else release_rounds n is (release i p)

-- `releaseDataBuffers`. The list is the index array; what stands behind its terminator is not read.
pub release_data_buffers : List ℕ → Pool → Pool
unfolding release_rounds
release_data_buffers is p = release_rounds buffers_number is p

-- `mbuf_copydata` at the packet in hand: an error code, and the bytes at an offset.
abbrev pub CopyData : Type 0
CopyData = ℕ → ℕ → ℕ × List ℕ

-- `size_t` sums wrap.
abbrev pub add_size : ℕ → ℕ → ℕ
add_size a b = (a + b) % 18446744073709551616

abbrev pub sub_size : ℕ → ℕ → ℕ
sub_size a b = (a + 18446744073709551616 - b) % 18446744073709551616

-- What `copyDataMbuf` writes: an error, the number of bytes copied, and the pool.
-- The copy always goes to the start of the buffer, whatever `offset_in_buffer` is.
pub copy_data_mbuf : CopyData → ℕ → ℕ → ℕ → ℕ → Pool → ℕ × ℕ × Pool
copy_data_mbuf copydata i offset_in_buffer bytes_to_copy offset_in_mbuf p =
    let n : ℕ =
      if ltb buffer_size (add_size offset_in_buffer bytes_to_copy)
      then sub_size buffer_size offset_in_buffer
      else bytes_to_copy in
    let (error, bytes) = copydata offset_in_mbuf n in
    if error == 0
    then (
      0,
      n,
      record p { contents = update p.contents i (bytes ++ drop (length bytes) (p.contents i)) },
    )
    else (error, 0, p)

pub record CopyState : Type 0 where
  pub error : ℕ
  pub pool : Pool
  -- the entries of the index array that have been written
  pub indices : List ℕ

-- The `while` of `copyDataToBuffers`. The fuel is counted against `residual`, in Pool/Copy.
pub copy_rounds : CopyData → ℕ → ℕ → ℕ → List ℕ → Pool → CopyState
copy_rounds copydata zero residual offset is p = record { error = enomem; pool = p; indices = is }
copy_rounds copydata (suc fuel) residual offset is p = elim (residual == 0) [
  | true ↦ record { error = 0; pool = p; indices = is }
  | false ↦
      let (o, q) = acquire p in
      elim o [
        | none ↦ record { error = enomem; pool = q; indices = is }
        | some i ↦
            let (e, n, r) = copy_data_mbuf copydata i 0 residual offset q in
            elim (e == 0) [
              | true ↦ copy_rounds copydata fuel (residual - n) (offset + n) (is ++ i ∷ []) r
              | false ↦ record { error = e; pool = release i r; indices = is }
            ]
      ]
]

-- The terminator that `copyDataToBuffers` writes if the array is not full.
abbrev pub terminate : List ℕ → List ℕ
terminate is = if ltb (length is) buffers_number then is ++ uint8_max ∷ [] else is

-- What `copyDataToBuffers` does when the loop is over.
finish_copy : CopyState → CopyState
unfolding release_data_buffers
finish_copy c =
    let is = terminate c.indices in
    record {
      error = c.error;
      pool = if c.error == 0 then c.pool else release_data_buffers is c.pool;
      indices = is;
    }

-- `copyDataToBuffers` for a packet of `totalbytes` bytes. On an error the indices of the buffers
-- that it has released stay in the array.
pub copy_data_to_buffers : CopyData → ℕ → Pool → CopyState
unfolding copy_rounds finish_copy
copy_data_to_buffers copydata totalbytes p =
    finish_copy (copy_rounds copydata (totalbytes + 1) totalbytes 0 [] p)
