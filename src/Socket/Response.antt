-- ===== src/Socket/Response.antt =====
-- `setDeferredDataProperties`: the answer of the service is written into the packet that it is for.
pub mod Valid
use mac_osx_network_sockets.Base.{
  ℕ, Bool, true, false, not, List, [], ◌∷◌, ◌++◌, ◌==◌, if◌then◌else◌, ◌≡◌, refl, arith,
}
use mac_osx_network_sockets.Packet.{Pkt}
use mac_osx_network_sockets.Socket.{SocketObject}

-- `NkeSocketDataPropertyType`; `other` is any value that the driver does not know.
pub data PropertyType : Type 0 where
  unknown permission other : PropertyType

-- `NkeSocketDataProperty`; `allow_data` is the byte of `value.permission`.
pub record Property : Type 0 where
  pub type : PropertyType
  pub data_index : ℕ
  pub socket : ℕ
  pub socket_sequence : ℕ
  pub allow_data : ℕ

-- The `switch`.
pub apply_property : Property → Pkt → Pkt
apply_property r p = elim r.type [
  | permission ↦ record p { allow_data = not (r.allow_data == 0); response_received = true }
  | _ ↦ p
]

-- The `TAILQ_FOREACH`.
pub answer : Property → List Pkt → List Pkt
unfolding apply_property
answer r [] = []
answer r (p ∷ ps) =
    if p.need_to_be_reported
    then p ∷ ps
    else (if p.data_index == r.data_index then apply_property r p ∷ ps else p ∷ answer r ps)

unfoldable pub set_deferred_data_properties : Property → SocketObject → SocketObject
unfolding answer
set_deferred_data_properties r s = record s { pending_queue = answer r s.pending_queue }
