-- ===== src/UserClient/Session.antt =====
-- The user client of NKE/NetworkKernelExtension/NkeIOUserClient.cpp: how it opens, closes and
-- takes its port. Each method runs with no other thread between its steps.
use mac_osx_network_sockets.Base.{
  ℕ, Bool, true, false, not, ◌&&◌, ◌||◌, Option, none, some, ltb, ◌==◌, if◌then◌else◌, ◌≡◌, refl,
  ==-self, Bool-cases, inl, inr, if_lem,
}
use mac_osx_network_sockets.UserClient.{
  UserClientRef, is_same, may_register, swap_in, is_current, mark_pending, swap_out,
}

-- The codes of `IOReturn` that these methods return; the first is success.
pub data Status : Type 0 where
  success failure internal_error not_attached exclusive_access no_memory no_device bad_argument :
      Status

-- `registerUserClient`
pub register_user_client : ℕ → UserClientRef → Status × UserClientRef
register_user_client c r =
    if may_register r
    then (let (registered, s) = swap_in c r in (if registered then success else failure, s))
    else (failure, r)

-- `unregisterUserClient`; the wait for the invocations at its end changes nothing here.
pub unregister_user_client : ℕ → UserClientRef → Status × UserClientRef
unregister_user_client c r =
    if is_current c r
    then (let (unregistered, s) = swap_out c (mark_pending true r) in
        (if unregistered then success else failure, mark_pending false s))
    else (failure, r)

-- The references `gServiceUserClient` and, if there is a `gSocketFilter`, its own; the client that
-- has the provider open; and of one user client its provider, its port for notifications of the
-- socket filter, and `clientClosedItself`.
pub record Session : Type 0 where
  pub service : UserClientRef
  pub socket_filter : Option UserClientRef
  pub opened_by : Option ℕ
  pub has_provider : Bool
  pub notification_port : ℕ
  pub client_closed_itself : Bool

abbrev pub with_filter_ref : Session → UserClientRef → Session
with_filter_ref s r = record s { socket_filter = some r }

-- The second half of `startLogging`, once the service's reference has been tried: an error makes it
-- unregister the client at the socket filter, and only there.
abbrev pub undo_logging : ℕ → Session → UserClientRef → Session
undo_logging c s r = with_filter_ref s (unregister_user_client c r).1

pub start_logging : ℕ → Session → Status × Session
unfolding register_user_client unregister_user_client
start_logging c s = elim s.socket_filter [
  | none ↦ (internal_error, s)
  | some r ↦
      let (status, service) = register_user_client c s.service in
      let t : Session = record s { service = service } in
      elim status [
        | success ↦
            let (second, u) = register_user_client c r in
            elim second [ success ↦ (success, with_filter_ref t u) | e ↦ (e, undo_logging c t u) ]
        | e ↦ (e, undo_logging c t r)
      ]
]

pub stop_logging : ℕ → Session → Session
unfolding unregister_user_client
stop_logging c s =
    let t : Session = record s {
      notification_port = 0;
      socket_filter = elim s.socket_filter [
        | none ↦ none
        | some r ↦ some (unregister_user_client c r).1
      ];
    } in
    record t { service = (unregister_user_client c s.service).1 }

abbrev pub is_open : ℕ → Session → Bool
is_open c s = is_same s.opened_by (some c)

-- `fProvider->close( this )`, if the provider is open for the client.
abbrev pub close_provider : ℕ → Session → Session
close_provider c s = if s.has_provider && is_open c s then record s { opened_by = none } else s

-- `open`; `inactive` is `isInactive()`, and `granted` the answer of `fProvider->open( this )`.
pub open_client : Bool → Bool → ℕ → Session → Status × Session
unfolding start_logging
open_client true granted c s = (not_attached, s)
open_client false false c s = (exclusive_access, s)
open_client false true c s = start_logging c (record s { opened_by = some c })

-- `close`
pub close_client : ℕ → Session → Status × Session
close_client c s =
    if s.has_provider
    then (success, record (close_provider c s) { client_closed_itself = true })
    else (not_attached, s)

-- `terminate`
pub terminate_client : ℕ → Session → Session
unfolding stop_logging
terminate_client c s = stop_logging c (close_provider c s)

-- `clientClose`
pub client_close : ℕ → Session → Status × Session
unfolding close_client terminate_client
client_close c s =
    let t : Session =
      if s.client_closed_itself then s else (close_client c (close_provider c s)).1 in
    (success, record (terminate_client c t) { has_provider = false })

-- `kt_NkeNotifyTypeUnknown` is zero and `kt_NkeNotifyTypeMax` is two.
abbrev pub notify_type_max : ℕ
notify_type_max = 2

-- `registerNotificationPort`, where the queue of the type exists.
pub register_notification_port : ℕ → ℕ → Session → Status × Session
register_notification_port port type s =
    if (port == 0) || ((type == 0) || not (ltb type notify_type_max))
    then (failure, s)
    else (success, record s { notification_port = port })

-- A reference without a client, and the session of a user client with two references.
abbrev idle : ℕ → UserClientRef
idle n = record { pending_unregistration = false; client_invocations = n; user_client = none }

abbrev taken : ℕ → ℕ → UserClientRef
taken d n = record { pending_unregistration = false; client_invocations = n; user_client = some d }

module _ (m n port : ℕ) (by : Option ℕ) (provider closed : Bool) where
  abbrev session : UserClientRef → UserClientRef → ℕ → Session
  session service filter p = record {
    service = service;
    socket_filter = some filter;
    opened_by = by;
    has_provider = provider;
    notification_port = p;
    client_closed_itself = closed;
  }

  -- With no other client, `startLogging` succeeds, and `stopLogging` undoes it.
  start_stop_logging :
      (c : ℕ)
      → (start_logging c (session (idle m) (idle n) port)
          ≡ (success, session (taken c m) (taken c n) port))
        × (stop_logging c (session (taken c m) (taken c n) port) ≡ session (idle m) (idle n) 0)
  unfolding start_logging stop_logging register_user_client unregister_user_client may_register
      swap_in is_current mark_pending swap_out
  start_stop_logging c = rw (==-self c) (refl, refl)

  -- With another client at the socket filter, `startLogging` fails, and leaves its client
  -- registered at `gServiceUserClient`.
  failed_start_logging :
      (c d : ℕ)
      → (d == c) ≡ false
      → start_logging c (session (idle m) (taken d n) port)
        ≡ (failure, session (taken c m) (taken d n) port)
  unfolding start_logging register_user_client unregister_user_client may_register swap_in
      is_current mark_pending swap_out
  failed_start_logging c d other = rw other refl

unregister-is_current :
    (c : ℕ) (r : UserClientRef) → is_current c (unregister_user_client c r).1 ≡ false
unfolding unregister_user_client is_current mark_pending swap_out
unregister-is_current c r = elim (Bool-cases (is_same r.user_client (some c))) [
  | inl e ↦ rw e refl
  | inr e ↦ rw e e
]

close_provider-is_open :
    (c : ℕ) (s : Session) → s.has_provider ≡ true → is_open c (close_provider c s) ≡ false
close_provider-is_open c s p = elim (Bool-cases (is_open c s)) [
  | inl e ↦ rw (p, e) refl
  | inr e ↦ rw (p, e) e
]

-- Is the client registered at this reference, which may be missing?
abbrev pub is_registered : ℕ → Option UserClientRef → Bool
is_registered c none = false
is_registered c (some r) = is_current c r

-- Nothing is left of client `c`, but for its provider.
pub IsGivenUp : ℕ → Session → Type 0
IsGivenUp c s =
    (is_registered c (some s.service) ≡ false)
    × (is_registered c s.socket_filter ≡ false)
    × (is_open c s ≡ false)
    × (s.notification_port ≡ 0)

unregister_filter-is_registered :
    (c : ℕ) (o : Option UserClientRef)
    → is_registered c (elim o [ none ↦ none | some q ↦ some (unregister_user_client c q).1 ])
      ≡ false
unregister_filter-is_registered c none = refl
unregister_filter-is_registered c (some q) = unregister-is_current c q

terminate-IsGivenUp :
    (c : ℕ) (s : Session) → s.has_provider ≡ true → IsGivenUp c (terminate_client c s)
unfolding terminate_client stop_logging IsGivenUp
terminate-IsGivenUp c s p = (
  unregister-is_current c _,
  unregister_filter-is_registered c _,
  close_provider-is_open c s p,
  refl,
)

abbrev HasProvider : Session → Type 0
HasProvider s = s.has_provider ≡ true

close_provider-HasProvider :
    (c : ℕ) (s : Session) → HasProvider s → HasProvider (close_provider c s)
close_provider-HasProvider c s p = if_lem HasProvider _ _ s p p

close_client-HasProvider : (c : ℕ) (s : Session) → HasProvider s → HasProvider (close_client c s).1
unfolding close_client
close_client-HasProvider c s p =
    if_lem (λ (x : Status × Session). HasProvider x.1) s.has_provider _ _
      (close_provider-HasProvider c s p) p

-- `clientClose`, of a client that has its provider, leaves nothing of it, whether it closed itself
-- before or was aborted: it is registered neither at `gServiceUserClient` nor at the socket filter,
-- the provider is not open for it, its port is zero, and it has no provider any more.
pub client_close-IsGivenUp :
    (c : ℕ) (s : Session)
    → s.has_provider ≡ true
    → let t = (client_close c s).1 in IsGivenUp c t × (t.has_provider ≡ false)
unfolding client_close IsGivenUp
client_close-IsGivenUp c s p =
    let q =
      if_lem HasProvider s.client_closed_itself _ _ p
        (close_client-HasProvider c _ (close_provider-HasProvider c s p)) in
    (terminate-IsGivenUp c _ q, refl)
