-- ===== src/Client/Answer.antt =====
-- What the client's responses do in the extension.
use mac_osx_network_sockets.Base.{
  ℕ, ◌<◌, ◌≡◌, refl, Bool, Distinct, Below, Distinct-append_parts, true, false, some, List, [], ◌∷◌,
  ◌++◌, arith, length, subst, ◌∙◌,
}
use mac_osx_network_sockets.Packet.{Pkt}
use mac_osx_network_sockets.Pool.{
  Pool, buffers_number, CopyData, CopyState, copy_data_to_buffers, release_data_buffers,
}
use mac_osx_network_sockets.Pool.FreeList.{IsFreeList}
use mac_osx_network_sockets.Pool.Init.{push_all, InUse, release_data_buffers-IsFreeList}
use mac_osx_network_sockets.Pool.Copy.{Copies}
use mac_osx_network_sockets.Pool.Deliver.{
  Success, Outcome, success, failure, InUse-Distinct, copy_data_to_buffers-Outcome,
}
use mac_osx_network_sockets.Socket.{SocketObject}
use mac_osx_network_sockets.Socket.Response.{Property, set_deferred_data_properties}
use mac_osx_network_sockets.Socket.Response.Valid.{Passed, permission_answers}
use mac_osx_network_sockets.Filter.{data_notification}
use mac_osx_network_sockets.Client.{Response, allowing, last_property, respond_to}

respond_to-data :
    (s : SocketObject) (inbound : Bool) (size index : ℕ) (buffers : List ℕ)
    → let n = data_notification s inbound size index buffers in
      respond_to n
      ≡ some (record { buffers_to_release = buffers; properties = allowing n ∷ last_property ∷ [] })
unfolding respond_to data_notification
respond_to-data s true size index buffers = refl
respond_to-data s false size index buffers = refl

-- The client answers the notification of a reported packet with a response whose first property
-- answers that packet, and allows it; the packets in front of it, which have other indices, and those
-- behind it stay as they are.
pub respond_to-allows :
    (s : SocketObject) (front : List Pkt) (p : Pkt) (rest : List Pkt) (size : ℕ) (buffers : List ℕ)
    → s.pending_queue ≡ front ++ p ∷ rest
    → Passed p.data_index front
    → p.need_to_be_reported ≡ false
    → let n = data_notification s p.data_inbound size p.data_index buffers in
      (r : Property) × (rs : List Property) × (respond_to n
        ≡ some (record { buffers_to_release = buffers; properties = r ∷ rs }))
      × (r.socket ≡ s.socket)
      × (r.socket_sequence ≡ s.socket_sequence)
      × ((set_deferred_data_properties r s).pending_queue
          ≡ front ++ record p { allow_data = true; response_received = true } ∷ rest)
unfolding data_notification
respond_to-allows s front p rest size buffers split passed reported =
    let n = data_notification s p.data_inbound size p.data_index buffers in
    (
      allowing n,
      last_property ∷ [],
      respond_to-data s p.data_inbound size p.data_index buffers,
      refl,
      refl,
      permission_answers (allowing n) s front p rest refl split passed refl ∙ rw reported refl,
    )

Below-append : (n : ℕ) (xs ys : List ℕ) → Below n (xs ++ ys) → Below n xs
Below-append n [] ys b = tt
Below-append n (x ∷ xs) ys (lt, b) = (lt, Below-append n xs ys b)

in_use :
    {p : Pool} {free bytes : List ℕ} {c : CopyState}
    → IsFreeList p free
    → (w : Success p free bytes c) → InUse w.used w.left
in_use {free} f w =
    let (d, _, apart) = Distinct-append_parts w.used w.left (subst Distinct w.split f.distinct) in
    let b = subst (Below buffers_number) w.split f.in_range in
    InUse-Distinct w.used w.left d (Below-append buffers_number w.used w.left b) apart

-- If the data of a packet have been copied to buffers, the response of the client to their
-- notification gives back exactly these buffers: they are all free again, on top of those that were
-- not needed.
pub respond_to-gives_back :
    (s : SocketObject) (inbound : Bool) (index : ℕ) (copydata : CopyData) (bytes free : List ℕ)
    (p : Pool)
    → Copies copydata bytes
    → length bytes < 18446744073709551616
    → IsFreeList p free
    → let c = copy_data_to_buffers copydata (length bytes) p in
      c.error ≡ 0
      → let n = data_notification s inbound (length bytes) index c.indices in
        (r : Response) × (used : List ℕ) × (left : List ℕ) × (respond_to n ≡ some r)
        × (free ≡ used ++ left)
        × IsFreeList (release_data_buffers r.buffers_to_release c.pool) (push_all used left)
respond_to-gives_back s inbound index copydata bytes free p copies small f ok =
    go (copy_data_to_buffers copydata (length bytes) p)
      (copy_data_to_buffers-Outcome copydata bytes free p copies small f) ok
  where
    go :
        (c : CopyState)
        → Outcome p free bytes c
        → c.error ≡ 0
        → let n = data_notification s inbound (length bytes) index c.indices in
          (r : Response) × (used : List ℕ) × (left : List ℕ) × (respond_to n ≡ some r)
          × (free ≡ used ++ left)
          × IsFreeList (release_data_buffers r.buffers_to_release c.pool) (push_all used left)
    go c (failure e w) ok = absurd (omega arith)
    go c (success e w) ok = (
      _,
      w.used,
      w.left,
      respond_to-data s inbound (length bytes) index c.indices,
      w.split,
      rw w.indices (release_data_buffers-IsFreeList w.used c.pool w.left w.list (in_use f w)),
    )
