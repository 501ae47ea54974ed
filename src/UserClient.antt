-- ===== src/UserClient.antt =====
-- The reference to the user client: `NkeIOUserClientRef` of
-- NKE/NetworkKernelExtension/NkeIOUserClientRef.h and NkeIOUserClient.cpp. A client is named by a
-- number. The functions are the parts of the methods between which other threads can run.
pub mod Threads
pub mod Held
pub mod Session
pub mod Memory
pub mod Respond
pub mod Resources
use mac_osx_network_sockets.Base.{
  ℕ, ◌+◌, Bool, true, false, not, ◌&&◌, ◌||◌, Option, none, some, ◌==◌, if◌then◌else◌, add32, sub32,
}

pub record UserClientRef : Type 0 where
  pub pending_unregistration : Bool
  pub client_invocations : ℕ
  pub user_client : Option ℕ

-- The constructor `NkeIOUserClientRef()`
abbrev pub empty_ref : UserClientRef
empty_ref = record { pending_unregistration = false; client_invocations = 0; user_client = none }

-- Are the two pointers the same? `none` is `NULL`.
abbrev pub is_same : Option ℕ → Option ℕ → Bool
is_same none none = true
is_same none (some c) = false
is_same (some c) none = false
is_same (some c) (some d) = c == d

-- `OSCompareAndSwapPtr` on `userClient`
abbrev pub compare_and_swap : Option ℕ → Option ℕ → UserClientRef → Bool × UserClientRef
compare_and_swap old new r =
    if is_same r.user_client old then (true, record r { user_client = new }) else (false, r)

-- `isUserClientPresent`
pub is_user_client_present : UserClientRef → Bool
is_user_client_present r = not (is_same r.user_client none)

-- `registerUserClient` goes on only if no unregistration is pending.
unfoldable pub may_register : UserClientRef → Bool
may_register r = not r.pending_unregistration

-- Its compare-and-swap
unfoldable pub swap_in : ℕ → UserClientRef → Bool × UserClientRef
swap_in c r = compare_and_swap none (some c) r

-- `unregisterUserClient` goes on only for the current client.
pub is_current : ℕ → UserClientRef → Bool
is_current c r = is_same r.user_client (some c)

pub mark_pending : Bool → UserClientRef → UserClientRef
mark_pending b r = record r { pending_unregistration = b }

-- Its compare-and-swap
pub swap_out : ℕ → UserClientRef → Bool × UserClientRef
swap_out c r = compare_and_swap (some c) none r

-- The condition on which the `do` loop of `unregisterUserClient` ends; `release` of the client
-- follows.
pub is_unused : UserClientRef → Bool
is_unused r = r.client_invocations == 0

-- `getUserClient` goes on only if a client is there and no unregistration is pending.
unfoldable pub may_enter : UserClientRef → Bool
may_enter r = not (is_same r.user_client none || r.pending_unregistration)

unfoldable pub enter : UserClientRef → UserClientRef
enter r = record r { client_invocations = add32 r.client_invocations 1 }

-- The first compare-and-swap of `getUserClient` at the client it has read
unfoldable pub is_still_current : ℕ → UserClientRef → Bool
is_still_current c r = (compare_and_swap (some c) (some c) r).0

-- The second, with `NULL`
unfoldable pub is_null : UserClientRef → Bool
is_null r = (compare_and_swap none none r).0

-- The decrement of `releaseUserClient`, and of `getUserClient` when it returns `NULL`
pub leave : UserClientRef → UserClientRef
leave r = record r { client_invocations = sub32 r.client_invocations 1 }

-- Does `releaseUserClient` wake the thread in `unregisterUserClient`? The count is the one before
-- the decrement, the pointer is read after it.
pub release_wakes : UserClientRef → UserClientRef → Bool
release_wakes before after = (before.client_invocations == 1) && is_same after.user_client none
