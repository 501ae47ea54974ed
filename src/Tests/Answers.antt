-- ===== src/Tests/Answers.antt =====
-- The client's responses to a report of a packet.
use mac_osx_network_sockets.Base.{ℕ, ◌≡◌, refl, true, some, List, [], ◌∷◌, ◌++◌, arith}
use mac_osx_network_sockets.Pool.{copy_data_to_buffers, release_data_buffers}
use mac_osx_network_sockets.Pool.FreeList.{IsFreeList}
use mac_osx_network_sockets.Pool.Init.{push_all}
use mac_osx_network_sockets.Pool.Deliver.{copy_data_to_buffers-error}
use mac_osx_network_sockets.Socket.Response.{Property, set_deferred_data_properties}
use mac_osx_network_sockets.Filter.{data_notification}
use mac_osx_network_sockets.Client.{Response, respond_to}
use mac_osx_network_sockets.Client.Answer.{respond_to-allows, respond_to-gives_back}
use mac_osx_network_sockets.Tests.Buffers.{two_free, two_free-IsFreeList, copy_from, four_bytes}
use mac_osx_network_sockets.Tests.Packets.{reported_in, waiting_out, socket_with, idle_socket}

respond_to-allows_example :
    let n =
      data_notification
        (socket_with reported_in)
        reported_in.data_inbound
        4
        reported_in.data_index
        [] in
    (r : Property) × (rs : List Property) × (respond_to n
      ≡ some (record { buffers_to_release = []; properties = r ∷ rs }))
    × (r.socket ≡ (socket_with reported_in).socket)
    × (r.socket_sequence ≡ (socket_with reported_in).socket_sequence)
    × ((set_deferred_data_properties r (socket_with reported_in)).pending_queue
        ≡ record reported_in { allow_data = true; response_received = true } ∷ waiting_out ∷ [])
respond_to-allows_example =
    respond_to-allows (socket_with reported_in) [] reported_in (waiting_out ∷ []) 4 [] refl tt refl

respond_to-gives_back_example :
    let c = copy_data_to_buffers (copy_from four_bytes) 4 two_free in
    let n = data_notification idle_socket true 4 0 c.indices in
    (r : Response) × (used : List ℕ) × (left : List ℕ) × (respond_to n ≡ some r)
    × (1 ∷ 0 ∷ [] ≡ used ++ left)
    × IsFreeList (release_data_buffers r.buffers_to_release c.pool) (push_all used left)
respond_to-gives_back_example =
    respond_to-gives_back idle_socket true 0 (copy_from four_bytes) four_bytes (1 ∷ 0 ∷ []) two_free
      (λ off n h. refl) (omega arith) two_free-IsFreeList
      (copy_data_to_buffers-error (copy_from four_bytes) four_bytes (1 ∷ 0 ∷ []) two_free
        (λ off n h. refl) (omega arith) two_free-IsFreeList)
