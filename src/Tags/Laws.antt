-- ===== src/Tags/Laws.antt =====
-- When a packet that `setTag` has marked is recognised by `checkTag`, and when it is not.
use mac_osx_network_sockets.Base.{ℕ, ◌≡◌, ◌≢◌, true, false, arith, refl}
use mac_osx_network_sockets.Tags.{
  MbufKpi, ProcFlags, inbound_done, outbound_done, value_of, size_of_flags, check_tag, set_tag,
  set_new_tag,
}

-- What `mbuf_tag_allocate` and the store through its result do: the tag is found with its value.
abbrev pub Stores : {M : Type 0} → MbufKpi M → Type 0
Stores {M} kpi =
    (m : M) (v : ℕ)
    → (kpi.tag_allocate m size_of_flags).0 ≡ 0
    → kpi.tag_find (kpi.write (kpi.tag_allocate m size_of_flags).1 v) ≡ (0, size_of_flags, v)

module _ {M : Type 0} (kpi : MbufKpi M) (stores : Stores kpi) where
  -- A packet that bears no tag yet, and to which one can be attached at once, is marked by `setTag`
  -- with success, and `checkTag` recognises it for that direction and for no other.
  pub set_tag_marks :
      (m : M) (value other : ProcFlags)
      → (kpi.tag_find m).0 ≢ 0
      → (kpi.tag_allocate m size_of_flags).0 ≡ 0
      → other ≢ value
      → ((set_tag kpi m value).0 ≡ 0)
        × (check_tag kpi (set_tag kpi m value).1 value ≡ true)
        × (check_tag kpi (set_tag kpi m value).1 other ≡ false)
  unfolding set_tag set_new_tag check_tag
  set_tag_marks m inbound_done inbound_done fresh room ne = absurd (ne refl)
  set_tag_marks m outbound_done outbound_done fresh room ne = absurd (ne refl)
  set_tag_marks m value other fresh room ne = ground (arith, stores m (value_of value) room)

-- A packet that bears the tag of the other direction keeps it: `setTag` reports success and leaves
-- the packet as it was, and `checkTag` does not recognise it afterwards.
set_tag_keeps_old_tag :
    {M : Type 0} (kpi : MbufKpi M) (m : M) (old value : ProcFlags)
    → kpi.tag_find m ≡ (0, size_of_flags, value_of old)
    → value ≢ old
    → (set_tag kpi m value ≡ (0, m)) × (check_tag kpi (set_tag kpi m value).1 value ≡ false)
unfolding set_tag check_tag
set_tag_keeps_old_tag kpi m inbound_done inbound_done found ne = absurd (ne refl)
set_tag_keeps_old_tag kpi m outbound_done outbound_done found ne = absurd (ne refl)
set_tag_keeps_old_tag kpi m old value found ne = ground arith
