-- ===== src/Tests/Connections.antt =====
-- Connections.
use cpp_database.Prelude.{◌≡◌, refl, Bool, true, false, some, [], ◌∷◌}
use cpp_database.Driver.{Machine, returns, faults, use_after_free, Yields}
use cpp_database.Driver.Calls.{release}
use cpp_database.Executor.{
  connect, check_alive, get_error_number, get_error_message, start_reconnect,
}
use cpp_database.Executor.Connection.{IsLive, session, session_frees}
use cpp_database.Executor.Dangling.{
  connect_fails_dangling, start_reconnect_first, drop_lost, check_alive_lost_leaks,
}
use cpp_database.Tests.{Net, net_api, conn_option, up, down, machine, executor}

session_frees_example :
    Yields (session ⦃api = net_api⦄ conn_option (machine down)) λ (_, m'). m'.live ≡ 1 ∷ []
session_frees_example = session_frees ⦃api = net_api⦄ conn_option (machine down) refl refl

abbrev closed : Machine Net
closed = record { world = down; live = []; next = 2 }

connect_fails_dangling_example :
    (get_error_number ⦃api = net_api⦄ (executor false) closed ≡ faults use_after_free)
    × (get_error_message ⦃api = net_api⦄ (executor false) closed ≡ faults use_after_free)
    × (connect ⦃api = net_api⦄ (executor false) closed ≡ faults use_after_free)
unfolding connect release
connect_fails_dangling_example =
    connect_fails_dangling ⦃api = net_api⦄ (executor false) (machine down) (executor false) closed
      refl

start_reconnect_first_example :
    (◌≡◌ {A = Bool} true true)
    × (connect ⦃api = net_api⦄ (executor false) (machine up)
        ≡ returns ((true, executor true), machine up))
unfolding connect start_reconnect
start_reconnect_first_example =
    start_reconnect_first ⦃api = net_api⦄ (executor false) (machine up) true (executor true)
      (machine up) refl

check_alive_lost_leaks_example :
    Yields
      (drop_lost ⦃api = net_api⦄ (executor false) (machine down))
      λ (_, m''). IsLive (some 1) m''.live × (m''.live ≡ 1 ∷ [])
unfolding check_alive
check_alive_lost_leaks_example =
    check_alive_lost_leaks ⦃api = net_api⦄ (executor true) (machine down) (executor false)
      (machine down) (λ _. refl) refl refl
