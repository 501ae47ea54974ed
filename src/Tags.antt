-- ===== src/Tags.antt =====
-- `checkTag`, `setTag` and `prependMbufHdr` of NKE/NetworkKernelExtension/NkeSocketObject.cpp, which mark
-- the packets that the filter has seen. The mbuf KPI of the kernel is a parameter.
pub mod Laws
use mac_osx_network_sockets.Base.{
  ℕ, ◌+◌, ◌≡◌, Bool, true, false, ◌&&◌, Option, none, some, List, [], ◌∷◌, ◌==◌, if◌then◌else◌,
}

abbrev pub einval : ℕ
einval = 22

-- `NKE_PACKETPROCFLAGS`
pub data ProcFlags : Type 0 where
  inbound_done outbound_done : ProcFlags

-- The value of the C enumerator.
abbrev pub value_of : ProcFlags → ℕ
value_of inbound_done = 1
value_of outbound_done = 2

-- `sizeof(NKE_PACKETPROCFLAGS)`
abbrev pub size_of_flags : ℕ
size_of_flags = 4

-- The part of the mbuf KPI that the tags use, for one module identifier and tag type. `M` is an mbuf
-- chain with its tags. A search yields an error, the tag's length and its value; an allocation an
-- error and the chain with the tag, whose value is not set; `write` is the store through `tag_ref`.
pub record MbufKpi (M : Type 0) : Type 0 where
  pub tag_find : M → ℕ × ℕ × ℕ
  pub tag_allocate : M → ℕ → ℕ × M
  pub write : M → ℕ → M
  pub has_pkthdr : M → Bool
  -- the lengths `mbuf_len` along the chain
  pub lengths : M → List ℕ
  pub gethdr : ℕ × M
  -- `mbuf_setnext`, `mbuf_setnextpkt`, `mbuf_pkthdr_setlen`, `mbuf_setlen` and
  -- `mbuf_pkthdr_setrcvif`, in this order, at a new header, a chain and a length
  pub link_header : M → M → ℕ → M

sum : List ℕ → ℕ
sum [] = 0
sum (n ∷ ns) = n + sum ns

module _ {M : Type 0} (kpi : MbufKpi M) where
  pub check_tag : M → ProcFlags → Bool
  check_tag m value =
      let (error, len, found) = kpi.tag_find m in
      (error == 0) && ((len == size_of_flags) && (found == value_of value))

  pub prepend_mbuf_hdr : M → ℕ → ℕ × M
  prepend_mbuf_hdr m pkt_len =
      let (error, new_hdr) = kpi.gethdr in
      if error == 0 then (0, kpi.link_header new_hdr m pkt_len) else (error, m)

  -- The branch of `setTag` for a chain without a packet header.
  set_tag_no_header : M → ℕ × M
  set_tag_no_header m =
      let (error, m') = prepend_mbuf_hdr m (sum (kpi.lengths m)) in
      if error == 0 then kpi.tag_allocate m' size_of_flags else (error, m')

  -- The branch of `setTag` in which no tag was found.
  set_new_tag : M → ProcFlags → ℕ × M
  set_new_tag m value =
      let (error, m') = kpi.tag_allocate m size_of_flags in
      if error == 0
      then (0, kpi.write m' (value_of value))
      else if error == einval
      then (if kpi.has_pkthdr m then (error, m) else set_tag_no_header m)
      else (error, m)

  pub set_tag : M → ProcFlags → ℕ × M
  set_tag m value =
      let (error, _, _) = kpi.tag_find m in if error == 0 then (0, m) else set_new_tag m value
