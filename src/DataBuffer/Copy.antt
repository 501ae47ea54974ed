-- ===== src/DataBuffer/Copy.antt =====
-- What `write` and `read` move.
use mac_osx_network_sockets.Base.{
  ℕ, zero, suc, ◌+◌, ◌-◌, ◌<◌, ◌≤◌, ◌≡◌, refl, ◌∙◌, arith, ◌==◌, if◌then◌else◌, subst, length,
}
use mac_osx_network_sockets.Queue.Bytes.{Memory, write_bytes, read_bytes, read-write_bytes}
use mac_osx_network_sockets.DataBuffer.{DataBuffer, bytes_to_move, write, read}

-- The number of bytes that are asked for counts only at the beginning of the buffer, and there it is
-- not compared with the size; at any other offset all the rest of the buffer is moved.
bytes_to_move_lem :
    (offset n : ℕ) (b : DataBuffer)
    → offset ≤ b.size
    → b.size < 9223372036854775808
    → bytes_to_move offset n b ≡ (if offset == 0 then n else b.size - offset)
unfolding bytes_to_move
bytes_to_move_lem offset n b le small = ground arith

length-read_bytes : (at n : ℕ) (m : Memory) → length (read_bytes at n m) ≡ n
unfolding read_bytes
length-read_bytes at zero m = refl
length-read_bytes at (suc n) m = omega (arith, length-read_bytes (at + 1) n m)

-- What was written comes back, read by its length.
read_back :
    (at from n : ℕ) (source m : Memory)
    → read_bytes at n (write_bytes at (read_bytes from n source) m) ≡ read_bytes from n source
read_back at from n source m =
    let xs = read_bytes from n source in
    subst (λ k. read_bytes at k (write_bytes at xs m) ≡ xs) (length-read_bytes from n source)
      (read-write_bytes at xs m)

-- For a buffer of less than 2^63 bytes and an offset in it: `write` and `read` move as many bytes as
-- they are asked for at offset 0, whether the buffer has them or not, and all the rest of the buffer
-- at any other offset. A `read` behind a `write` with the same offset and number gives the bytes that
-- were written.
pub read-write :
    (offset n : ℕ) (source target : Memory) (from to : ℕ) (b : DataBuffer)
    → offset ≤ b.size
    → b.size < 9223372036854775808
    → let (m, c) = write offset n source from b in
      let (k, t) = read offset n target to c in
      (m ≡ (if offset == 0 then n else b.size - offset))
      × (k ≡ m)
      × (read_bytes to k t ≡ read_bytes from m source)
unfolding read write
read-write offset n source target from to b le small =
    let m = bytes_to_move offset n b in
    let c = write_bytes offset (read_bytes from m source) b.bytes in
    (
      bytes_to_move_lem offset n b le small,
      refl,
      read_back to offset m c target ∙ read_back offset from m source b.bytes,
    )
