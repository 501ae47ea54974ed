-- ===== src/Tests/Client.antt =====
-- One thread that registers client 7, and another that gets it; and client 7 that closes.
use mac_osx_network_sockets.Base.{ℕ, ◌≡◌, refl, false, true, some, arith, update}
use mac_osx_network_sockets.UserClient.{
  is_unused, swap_in, enter, may_register, may_enter, is_still_current, is_null,
}
use mac_osx_network_sockets.UserClient.Threads.{
  Place, outside, registering, entering, entered, has_read, confirmed, holding, tests_register,
  registers, tests_enter, enters, reads, confirms, returns, Threads, step, IsReached, start, after,
}
use mac_osx_network_sockets.UserClient.Held.{IsAlive, held-IsAlive}
use mac_osx_network_sockets.UserClient.Session.{
  Session, client_close, IsGivenUp, client_close-IsGivenUp,
}

-- Where the two threads have stood, the last place first.
abbrev came_through : ℕ → Place
came_through =
    update
      (update
        (update (update (update (update (λ i. outside) 0 (registering 7)) 0 outside) 1 entering) 1
          entered)
        1 (has_read 7))
      1 (confirmed 7)

-- Thread 0 has registered client 7, and thread 1 has got it.
abbrev holds_7 : Threads
holds_7 = record {
  ref = record { pending_unregistration = false; client_invocations = 1; user_client = some 7 };
  places = update came_through 1 (holding 7);
}

holds_7-IsReached : IsReached 2 holds_7
unfolding may_register swap_in may_enter enter is_still_current is_null
holds_7-IsReached =
    after
      (after
        (after
          (after
            (after
              (after (after start (step 0 _ _ (omega arith) (tests_register 7 _ refl)))
                (step 0 _ _ (omega arith) (registers 7 _ refl)))
              (step 1 _ _ (omega arith) (tests_enter _ refl)))
            (step 1 _ _ (omega arith) (enters _)))
          (step 1 _ _ (omega arith) (reads 7 _ refl)))
        (step 1 _ _ (omega arith) (confirms 7 _ refl)))
      (step 1 _ _ (omega arith) (returns 7 _ refl))

held-IsAlive_example : IsAlive 2 holds_7 7 × (is_unused holds_7.ref ≡ false)
held-IsAlive_example = held-IsAlive 2 holds_7 1 7 (omega arith) holds_7-IsReached (omega arith) refl

-- Client 7 is registered at both references, and has its provider open.
abbrev logging_7 : Session
logging_7 = record {
  service = record { pending_unregistration = false; client_invocations = 0; user_client = some 7 };
  socket_filter =
      some
        (record { pending_unregistration = false; client_invocations = 0; user_client = some 7 });
  opened_by = some 7;
  has_provider = true;
  notification_port = 9;
  client_closed_itself = false;
}

client_close-IsGivenUp_example :
    let t = (client_close 7 logging_7).1 in IsGivenUp 7 t × (t.has_provider ≡ false)
client_close-IsGivenUp_example = client_close-IsGivenUp 7 logging_7 refl
