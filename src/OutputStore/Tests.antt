-- ===== src/OutputStore/Tests.antt =====
-- The account of the retained bytes at work, and its theorems at concrete inputs.
use enhanced_ssh.Prelude.{◌+◌, ◌≤◌, [], ◌∷◌, none, ◌≡◌, refl, get, set}
use enhanced_ssh.OutputStore.Quota.{
  RetainedByteQuota, create, held, book, reserve, release, track_existing,
}
use enhanced_ssh.OutputStore.Quota.Laws
use enhanced_ssh.OutputStore.Quota.Laws.{
  Balanced, Reach-create-Balanced, reserve-held, release-reserve, reserves, releases,
}

run_quota : Unit {0}
unfolding create reserve book release track_existing get set
run_quota = tt

abbrev quota : RetainedByteQuota
quota = record {
  max_bytes = 10;
  max_entries = 2;
  bytes_by_reference = ("a", 6) ∷ [];
  total_bytes = 6;
}

quota_tests :
    ((reserve quota "a" 9).0.granted_bytes ≡ 4)
    × ((reserve quota "b" 3).1.bytes_by_reference ≡ ("a", 6) ∷ ("b", 3) ∷ [])
    × ((release quota "a").total_bytes ≡ 0)
unfolding run_quota
quota_tests = (refl, refl, refl)

Reach-create-Balanced_example : Balanced (release (reserve (create 10 2) "a" 6).1 "a")
Reach-create-Balanced_example =
    Reach-create-Balanced 10 2 (release (reserve (create 10 2) "a" 6).1 "a")
      (Laws.next (Laws.next Laws.here (reserves "a" 6)) (releases "a"))

reserve-held_example :
    (held "a" (reserve quota "a" 9).1.bytes_by_reference
      ≡ held "a" quota.bytes_by_reference + (reserve quota "a" 9).0.granted_bytes)
    × (held "b" (reserve quota "a" 9).1.bytes_by_reference ≡ held "b" quota.bytes_by_reference)
    × ((reserve quota "a" 9).1.total_bytes ≡ 6 + (reserve quota "a" 9).0.granted_bytes)
    × ((reserve quota "a" 9).0.granted_bytes ≤ 9)
reserve-held_example = reserve-held quota "a" "b" 9 refl

new_b : get "b" quota.bytes_by_reference ≡ none
unfolding run_quota
new_b = refl

release-reserve_example : release (reserve quota "b" 3).1 "b" ≡ quota
release-reserve_example = release-reserve quota "b" 3 new_b
