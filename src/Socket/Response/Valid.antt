-- ===== src/Socket/Response/Valid.antt =====
-- What `setDeferredDataProperties` changes, and the invariant of the socket object.
use mac_osx_network_sockets.Base.{
  ℕ, ◌≡◌, ◌≢◌, refl, true, false, not, List, [], ◌∷◌, ◌++◌, arith, if◌then◌else◌, ◌==◌,
}
use mac_osx_network_sockets.Packet.{Pkt}
use mac_osx_network_sockets.Socket.{SocketObject}
use mac_osx_network_sockets.Socket.Counters.{
  inbound_count, outbound_count, inbound_bytes, outbound_bytes, unreported_count, AllUnreported,
  IsTailed, IsAnswered, IsValid,
}
use mac_osx_network_sockets.Socket.Response.{
  Property, permission, answer, set_deferred_data_properties,
}

module _ (r : Property) where
  answer-counts :
      (q : List Pkt)
      → (inbound_count (answer r q) ≡ inbound_count q)
        × (outbound_count (answer r q) ≡ outbound_count q)
        × (inbound_bytes (answer r q) ≡ inbound_bytes q)
        × (outbound_bytes (answer r q) ≡ outbound_bytes q)
        × (unreported_count (answer r q) ≡ unreported_count q)
  unfolding answer
  answer-counts [] = (refl, refl, refl, refl, refl)
  answer-counts (p ∷ ps) = ground (arith, answer-counts ps)

  answer-AllUnreported : (q : List Pkt) → AllUnreported q → AllUnreported (answer r q)
  unfolding answer
  answer-AllUnreported [] u = tt
  answer-AllUnreported (p ∷ ps) u = ground (arith, answer-AllUnreported ps u.1)

  answer-IsTailed : (q : List Pkt) → IsTailed q → IsTailed (answer r q)
  unfolding answer
  answer-IsTailed [] t = tt
  answer-IsTailed (p ∷ ps) t = ground (arith, answer-IsTailed ps t.1, answer-AllUnreported ps)

  answer-IsAnswered : (q : List Pkt) → IsAnswered q → IsAnswered (answer r q)
  unfolding answer
  answer-IsAnswered [] a = tt
  answer-IsAnswered (p ∷ ps) a = ground (arith, answer-IsAnswered ps a.1)

  -- Whatever the service sends, `setDeferredDataProperties` keeps the invariant.
  pub response-IsValid : (s : SocketObject) → IsValid s → IsValid (set_deferred_data_properties r s)
  unfolding set_deferred_data_properties
  response-IsValid s v = ground (
    arith,
    answer-counts s.pending_queue,
    answer-IsTailed s.pending_queue v.tailed,
    answer-IsAnswered s.pending_queue v.answered,
  )

-- The answers neither list an object nor change how many packets wait.
pub response-waiting :
    (r : Property) (s : SocketObject)
    → let t = set_deferred_data_properties r s in
      (t.inserted_in_sockets_list_to_report ≡ s.inserted_in_sockets_list_to_report)
      × (unreported_count t.pending_queue ≡ unreported_count s.pending_queue)
unfolding set_deferred_data_properties
response-waiting r s = (refl, ground (arith, answer-counts r s.pending_queue))

-- No packet of the list is unreported or has this index.
abbrev pub Passed : ℕ → List Pkt → Type 0
Passed i [] = Unit
Passed i (p ∷ ps) = (p.need_to_be_reported ≡ false) × (p.data_index ≢ i) × Passed i ps

answer-append :
    (r : Property) (front : List Pkt) (p : Pkt) (rest : List Pkt)
    → r.type ≡ permission
    → Passed r.data_index front
    → p.data_index ≡ r.data_index
    → answer r (front ++ p ∷ rest) ≡ (
        if p.need_to_be_reported
        then front ++ p ∷ rest
        else front
          ++ record p { allow_data = not (r.allow_data == 0); response_received = true } ∷ rest)
unfolding answer
answer-append r [] p rest typed passed same = ground arith
answer-append r (x ∷ front) p rest typed passed same =
    ground (arith, answer-append r front p rest typed passed.2 same)

-- A permission is given to the first packet with its index, if this packet and all before it are
-- reported; it is then answered, and allowed unless the byte is 0. No other packet changes. If the
-- packet found there is not reported yet, nothing changes at all.
pub permission_answers :
    (r : Property) (s : SocketObject) (front : List Pkt) (p : Pkt) (rest : List Pkt)
    → r.type ≡ permission
    → s.pending_queue ≡ front ++ p ∷ rest
    → Passed r.data_index front
    → p.data_index ≡ r.data_index
    → (set_deferred_data_properties r s).pending_queue ≡ (
        if p.need_to_be_reported
        then s.pending_queue
        else front
          ++ record p { allow_data = not (r.allow_data == 0); response_received = true } ∷ rest)
unfolding set_deferred_data_properties
permission_answers r s front p rest typed split passed same =
    rw split (answer-append r front p rest typed passed same)
