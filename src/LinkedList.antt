-- ===== src/LinkedList.antt =====
-- The doubly linked lists of NKE/NetworkKernelExtension/NkeCommon.h. An entry is named by its
-- address, and the heap gives the two links of each.
pub mod Ring
pub mod Operations
pub mod Runs
use mac_osx_network_sockets.Base.{ℕ, Bool, ◌==◌, if◌then◌else◌, update}

-- `Flink` and `Blink` of each entry
pub record Heap : Type 0 where
  pub flink : ℕ → ℕ
  pub blink : ℕ → ℕ

abbrev pub set_flink : ℕ → ℕ → Heap → Heap
set_flink e v h = record h { flink = update h.flink e v }

abbrev pub set_blink : ℕ → ℕ → Heap → Heap
set_blink e v h = record h { blink = update h.blink e v }

pub initialize_list_head : ℕ → Heap → Heap
initialize_list_head head h = set_flink head head (set_blink head head h)

pub is_list_empty : ℕ → Heap → Bool
is_list_empty head h = h.flink head == head

pub remove_entry_list : ℕ → Heap → Bool × Heap
remove_entry_list entry h =
    let f = h.flink entry in let b = h.blink entry in (f == b, set_blink f b (set_flink b f h))

pub remove_head_list : ℕ → Heap → ℕ × Heap
remove_head_list head h =
    let entry = h.flink head in
    let f = h.flink entry in (entry, set_blink f head (set_flink head f h))

pub remove_tail_list : ℕ → Heap → ℕ × Heap
remove_tail_list head h =
    let entry = h.blink head in
    let b = h.blink entry in (entry, set_flink b head (set_blink head b h))

pub insert_tail_list : ℕ → ℕ → Heap → Heap
insert_tail_list head entry h =
    let b = h.blink head in
    set_blink head entry (set_flink b entry (set_blink entry b (set_flink entry head h)))

pub insert_head_list : ℕ → ℕ → Heap → Heap
insert_head_list head entry h =
    let f = h.flink head in
    set_flink head entry (set_blink f entry (set_blink entry head (set_flink entry f h)))

-- `AppendTailList`, whose second list has no head of its own
pub append_tail_list : ℕ → ℕ → Heap → Heap
append_tail_list head appended h =
    let end = h.blink head in
    let h1 = set_flink (h.blink head) appended h in
    let h2 = set_blink head (h1.blink appended) h1 in
    let h3 = set_flink (h2.blink appended) head h2 in set_blink appended end h3
