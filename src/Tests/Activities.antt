-- ===== src/Tests/Activities.antt =====
-- Activities at the pool with two free buffers.
use mac_osx_network_sockets.Base.{ℕ, ◌≡◌, refl, List, [], ◌∷◌, ◌++◌, arith}
use mac_osx_network_sockets.Pool.{acquire, release}
use mac_osx_network_sockets.Pool.Activities.{outside, holding, start, moved, step, run, OneAtATime}
use mac_osx_network_sockets.Pool.Activities.Shared.{IsShared}
use mac_osx_network_sockets.Pool.Activities.Exclusive.{run-IsShared}
use mac_osx_network_sockets.Pool.Activities.Alone.{five, run_alone_lem, aba, aba_shares_buffer}
use mac_osx_network_sockets.Tests.Buffers.{two_free, two_free-IsFreeList}

-- 0 acquires; 1 reads the head and what follows it; 0 begins to release.
abbrev overlapping : List ℕ
overlapping = 0 ∷ 0 ∷ 0 ∷ 0 ∷ 0 ∷ 1 ∷ 1 ∷ 1 ∷ 0 ∷ 0 ∷ 0 ∷ []

overlapping-OneAtATime : OneAtATime overlapping (start two_free)
unfolding step
overlapping-OneAtATime = (
  λ h j. ground arith,
  (
    λ h j. ground arith,
    (
      λ h j. ground arith,
      (
        λ h j. ground arith,
        (
          λ h j. ground arith,
          (
            λ h j. ground arith,
            (
              λ h j. ground arith,
              (
                λ h j. ground arith,
                (λ h j. ground arith, (λ h j. ground arith, (λ h j. ground arith, tt))),
              ),
            ),
          ),
        ),
      ),
    ),
  ),
)

run-IsShared_example : (ys : List ℕ) × IsShared (1 ∷ 0 ∷ []) (run overlapping (start two_free)) ys
run-IsShared_example =
    run-IsShared overlapping two_free (1 ∷ 0 ∷ []) two_free-IsFreeList overlapping-OneAtATime

run_alone_lem_example :
    (run (five 0) (start two_free) ≡ moved (start two_free) 0 (holding 1, (acquire two_free).1))
    × (run (five 0 ++ five 0) (start two_free)
        ≡ moved (start two_free) 0 (outside, release 1 (acquire two_free).1))
run_alone_lem_example = run_alone_lem 0 1 (0 ∷ []) (start two_free) refl two_free-IsFreeList

aba_shares_buffer_example :
    let s = run aba (start two_free) in (s.places 2 ≡ holding 0) × (s.places 3 ≡ holding 0)
aba_shares_buffer_example = aba_shares_buffer two_free 1 0 [] two_free-IsFreeList
