-- ===== src/Tests/Buffers.antt =====
-- The communication buffers at concrete pools and packets.
use mac_osx_network_sockets.Base.{
  ℕ, zero, suc, ◌<◌, ◌≡◌, refl, ◌∙◌, List, [], ◌∷◌, ◌==◌, not, if◌then◌else◌, arith, take, drop,
  length,
}
use mac_osx_network_sockets.Pool.{
  Pool, CopyData, uint8_max, enomem, release_data_buffers, with_default, copy_data_to_buffers,
}
use mac_osx_network_sockets.Pool.FreeList.{IsFreeList}
use mac_osx_network_sockets.Pool.Init.{AllFree, with_default-AllFree}
use mac_osx_network_sockets.Pool.Deliver.{
  Outcome, copy_data_to_buffers-Outcome, copy_data_to_buffers-error,
}
use mac_osx_network_sockets.Pool.Twice.{failed_copy_released_twice}

-- Two free buffers: 1 links to 0.
abbrev pub two_free : Pool
two_free = record {
  buffers_count = 2;
  free_buffers = λ i. if i == 1 then 0 else uint8_max;
  free_buffers_head = 1;
  contents = λ _. [];
}

pub two_free-IsFreeList : IsFreeList two_free (1 ∷ 0 ∷ [])
two_free-IsFreeList = record {
  links = (refl, (refl, refl));
  distinct = (refl, (refl, tt));
  in_range = (ground arith, (ground arith, tt));
  marked = λ i c. ground arith;
}

-- Both buffers are in use.
abbrev none_free : Pool
none_free = record {
  buffers_count = 2;
  free_buffers = λ _. uint8_max;
  free_buffers_head = uint8_max;
  contents = λ _. [];
}

none_free-IsFreeList : IsFreeList none_free []
none_free-IsFreeList = record { links = refl; distinct = tt; in_range = tt; marked = λ i c. refl }

-- `mbuf_copydata` at a packet of these bytes.
abbrev pub copy_from : List ℕ → CopyData
copy_from bytes off n = (0, take n (drop off bytes))

abbrev pub four_bytes : List ℕ
four_bytes = 7 ∷ 8 ∷ 9 ∷ 10 ∷ []

with_default-AllFree_example :
    (xs : List ℕ) × AllFree (with_default (λ i. not (i == 3)) (λ _. [])) xs
with_default-AllFree_example = with_default-AllFree (λ i. not (i == 3)) (λ _. [])

copy_data_to_buffers-Outcome_example :
    Outcome two_free
      (1 ∷ 0 ∷ [])
      four_bytes
      (copy_data_to_buffers (copy_from four_bytes) (length four_bytes) two_free)
copy_data_to_buffers-Outcome_example =
    copy_data_to_buffers-Outcome (copy_from four_bytes) four_bytes (1 ∷ 0 ∷ []) two_free
      (λ off n h. refl) (ground arith) two_free-IsFreeList

copy_data_to_buffers-error_example :
    (copy_data_to_buffers (copy_from four_bytes) 4 none_free).error ≡ enomem
copy_data_to_buffers-error_example =
    copy_data_to_buffers-error (copy_from four_bytes) four_bytes [] none_free (λ off n h. refl)
      (ground arith) none_free-IsFreeList

zeros : ℕ → List ℕ
zeros zero = []
zeros (suc n) = 0 ∷ zeros n

length-zeros : (n : ℕ) → length (zeros n) ≡ n
unfolding zeros
length-zeros zero = refl
length-zeros (suc n) = omega (arith, length-zeros n)

-- More bytes than the two buffers hold.
abbrev long_packet : List ℕ
long_packet = zeros 131073

long_packet-small : length long_packet < 18446744073709551616
long_packet-small = omega (arith, length-zeros 131073)

long_packet-error :
    (copy_data_to_buffers (copy_from long_packet) (length long_packet) two_free).error ≡ enomem
long_packet-error =
    copy_data_to_buffers-error (copy_from long_packet) long_packet (1 ∷ 0 ∷ []) two_free
      (λ off n h. refl) long_packet-small two_free-IsFreeList
    ∙ ground (arith, length-zeros 131073)

failed_copy_released_twice_example :
    let c = copy_data_to_buffers (copy_from long_packet) (length long_packet) two_free in
    ¬ IsFreeList (release_data_buffers c.indices c.pool) (0 ∷ 1 ∷ [])
failed_copy_released_twice_example =
    failed_copy_released_twice (copy_from long_packet) long_packet (0 ∷ []) (0 ∷ 1 ∷ []) 1 two_free
      (λ off n h. refl) long_packet-small two_free-IsFreeList long_packet-error
