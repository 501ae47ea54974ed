-- ===== src/Pool/Deliver.antt =====
-- `copyDataToBuffers` as a whole: what it returns, and which buffers are free afterwards.
use mac_osx_network_sockets.Base.{
  ℕ, length-append, ltb, if◌then◌else◌, ◌+◌, ◌*◌, ◌<◌, ◌≡◌, refl, ap, true, false, List, [], ◌∷◌,
  ◌++◌, arith, contains, Distinct, Below, length,
}
use mac_osx_network_sockets.Pool.{
  Pool, CopyState, CopyData, buffers_number, buffer_size, enomem, finish_copy, copy_data_to_buffers,
  terminate, release_data_buffers,
}
use mac_osx_network_sockets.Pool.FreeList.{IsFreeList}
use mac_osx_network_sockets.Pool.Init.{push_all, InUse, release_data_buffers-IsFreeList}
use mac_osx_network_sockets.Pool.Copy.{
  Copies, read_buffers-length, Copied, copied, short, read_buffers, copy_rounds-Copied,
}

pub InUse-Distinct :
    (is xs : List ℕ)
    → Distinct is
    → Below buffers_number is
    → ((i : ℕ) → contains is i ≡ true → contains xs i ≡ false)
    → InUse is xs
InUse-Distinct [] xs d b h = tt
InUse-Distinct (i ∷ is) xs d b h =
    (b.0, h i (ground arith), InUse-Distinct is (i ∷ xs) d.1 b.1 (λ j c. ground (arith, h j)))

-- The packet is in buffers that were free, in the order of the index array.
pub record Success (p : Pool) (free bytes : List ℕ) (c : CopyState) : Type 0 where
  pub used : List ℕ
  pub left : List ℕ
  pub split : free ≡ used ++ left
  pub indices : c.indices ≡ terminate used
  pub list : IsFreeList c.pool left
  pub whole : read_buffers c.pool.contents (length bytes) used ≡ bytes
  pub others : (i : ℕ) → contains free i ≡ false → c.pool.contents i ≡ p.contents i

-- No buffer is lost: all are free again, the first that was taken at the bottom of the list.
pub record Failure (free bytes : List ℕ) (c : CopyState) : Type 0 where
  pub few : length free * buffer_size < length bytes
  pub indices : c.indices ≡ terminate free
  pub list : IsFreeList c.pool (push_all free [])

pub data Outcome (p : Pool) (free bytes : List ℕ) (c : CopyState) : Type 0 where
  success : c.error ≡ 0 → Success p free bytes c → Outcome p free bytes c
  failure : c.error ≡ enomem → Failure free bytes c → Outcome p free bytes c

finish_copy-ok :
    (c : CopyState) → c.error ≡ 0 → finish_copy c ≡ record c { indices = terminate c.indices }
unfolding finish_copy
finish_copy-ok c e = ground arith

finish_copy-enomem :
    (c : CopyState)
    → c.error ≡ enomem
    → finish_copy c ≡ record c {
      pool = release_data_buffers (terminate c.indices) c.pool;
      indices = terminate c.indices;
    }
unfolding finish_copy
finish_copy-enomem c e = ground arith

finish-Outcome :
    (p : Pool) (free bytes : List ℕ) (c : CopyState)
    → IsFreeList p free
    → Copied p free (length bytes) bytes [] c
    → Outcome p free bytes (finish_copy c)
finish-Outcome p free bytes c f (copied used left split ok ids list read same) =
    rw (finish_copy-ok c ok) (
      success ok (record {
        used = used;
        left = left;
        split = split;
        indices = ap terminate ids;
        list = list;
        whole = read;
        others = same;
      }))
finish-Outcome p free bytes c f (short err ids list few same) = rw (finish_copy-enomem c err) (
    failure err (record {
      few = few;
      indices = ap terminate ids;
      list = rw ids (
          release_data_buffers-IsFreeList free c.pool [] list
            (InUse-Distinct free [] f.distinct f.in_range (λ i h. refl)));
    }))

-- For a packet that `mbuf_copydata` can read: either `copyDataToBuffers` returns 0 and the client
-- that reads the listed buffers in order gets exactly the packet's bytes, no buffer outside the free
-- list is written, and the buffers that were not needed stay free; or it returns ENOMEM, the free
-- buffers are too few for the packet, and all of them are free again.
pub copy_data_to_buffers-Outcome :
    (copydata : CopyData) (bytes free : List ℕ) (p : Pool)
    → Copies copydata bytes
    → length bytes < 18446744073709551616
    → IsFreeList p free
    → Outcome p free bytes (copy_data_to_buffers copydata (length bytes) p)
unfolding copy_data_to_buffers
copy_data_to_buffers-Outcome copydata bytes free p copies small f =
    finish-Outcome p free bytes _ f (
      copy_rounds-Copied copydata bytes copies small (length bytes + 1) (length bytes) 0 [] p free
        (omega arith) (omega arith) f)

Outcome-error :
    (p : Pool) (free bytes : List ℕ) (c : CopyState)
    → Outcome p free bytes c
    → c.error ≡ (if ltb (length free * buffer_size) (length bytes) then enomem else 0)
Outcome-error p free bytes c (success ok w) = ground (
  arith,
  ap length w.whole,
  ap length w.split,
  length-append w.used w.left,
  read_buffers-length c.pool.contents (length bytes) w.used,
)
Outcome-error p free bytes c (failure e w) = ground (arith, w.few)

-- For a packet that `mbuf_copydata` can read, `copyDataToBuffers` fails exactly if the packet is
-- longer than all free buffers together, and then with ENOMEM.
pub copy_data_to_buffers-error :
    (copydata : CopyData) (bytes free : List ℕ) (p : Pool)
    → Copies copydata bytes
    → length bytes < 18446744073709551616
    → IsFreeList p free
    → (copy_data_to_buffers copydata (length bytes) p).error
      ≡ (if ltb (length free * buffer_size) (length bytes) then enomem else 0)
copy_data_to_buffers-error copydata bytes free p copies small f =
    Outcome-error p free bytes _ (copy_data_to_buffers-Outcome copydata bytes free p copies small f)
