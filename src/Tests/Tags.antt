-- ===== src/Tests/Tags.antt =====
-- The tags at a concrete KPI: a chain is its tag, if it has one, with room for one.
use mac_osx_network_sockets.Base.{ℕ, ◌≡◌, refl, true, false, Option, none, some, [], ◌∷◌, arith}
use mac_osx_network_sockets.Tags.{MbufKpi, inbound_done, outbound_done, check_tag, set_tag}
use mac_osx_network_sockets.Tags.Laws.{set_tag_marks}

abbrev find_tag : Option ℕ → ℕ × ℕ × ℕ
find_tag none = (2, 0, 0)
find_tag (some v) = (0, 4, v)

abbrev tag_kpi : MbufKpi (Option ℕ)
tag_kpi = record {
  tag_find = find_tag;
  tag_allocate = λ m n. (0, some 0);
  write = λ m v. some v;
  has_pkthdr = λ _. true;
  lengths = λ _. 1 ∷ [];
  gethdr = (0, none);
  link_header = λ h m n. m;
}

set_tag_marks_example :
    ((set_tag tag_kpi none inbound_done).0 ≡ 0)
    × (check_tag tag_kpi (set_tag tag_kpi none inbound_done).1 inbound_done ≡ true)
    × (check_tag tag_kpi (set_tag tag_kpi none inbound_done).1 outbound_done ≡ false)
set_tag_marks_example =
    set_tag_marks tag_kpi (λ m v h. refl) none inbound_done outbound_done
      (λ h. absurd (omega arith)) refl (λ h. absurd (ground arith))
