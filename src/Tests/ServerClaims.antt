-- ===== src/Tests/ServerClaims.antt =====
-- The theorems on the tables of the server, after a run.
use beemo.Common.{◌+◌, ◌≤◌, true, false, [], ◌∷◌, none, some, length, ok, ◌≡◌, refl, arith}
use beemo.Text.{codes, find_str}
use beemo.Http.Config.{default_config}
use beemo.Http.Conn.{Conn, closed}
use beemo.Server.Table.{find}
use beemo.Server.World.{World, Object, readable, accepting, waiting, init_conn}
use beemo.Server.Handlers.{handle_in}
use beemo.Server.Sound.{is_some, IsSound}
use beemo.Server.Steps.{Step, Reach}
use beemo.Server.Serving.{Reach-size, Reach-IsSound}
use beemo.Server.Counts.{bit, count}
use beemo.Server.Kept.{count-armed}
use beemo.Server.Race.{begin_conn-lost}
use beemo.Server.Stalled.{IsWithin, handle_in-IsWithin}
use beemo.Tests.HeaderClaims.{get_req}
use beemo.Tests.Kernel.{Interest, kernel}
use beemo.Tests.ServerRun.{
  env, pointer, serving, serving-Reach, new_kernel, new_off, serving-IsSound, serving-Holds,
}

Reach-size_example : length serving.conns ≤ default_config.max_concurrent_connections
Reach-size_example = Reach-size kernel default_config false [] serving new_kernel serving-Reach

Reach-IsSound_example : IsSound kernel serving
Reach-IsSound_example =
    Reach-IsSound kernel default_config false [] serving new_kernel serving-Reach

count-armed_example :
    count 5 serving.pending + bit (kernel.armed 5 serving.kernel)
    ≡ bit (is_some (find 5 serving.conns))
count-armed_example =
    count-armed kernel default_config [] serving 5 new_kernel new_off serving-Reach

-- `start` has seen that there is room for another.
abbrev expecting : World Interest
expecting = record serving { main = accepting }

expecting-IsSound : IsSound kernel expecting
expecting-IsSound =
    Reach-IsSound kernel default_config false [] expecting new_kernel
      (Reach.later serving-Reach (Step.checks refl refl refl))

no_6 : find 6 expecting.conns ≡ none
unfolding find
no_6 = refl

begin_conn-lost_example :
    (v : World Interest) × Reach kernel default_config true expecting v
    × (v.main ≡ waiting)
    × ((o : Object) × (find 6 v.conns ≡ some o))
    × (v.pending ≡ expecting.pending)
    × (kernel.armed 6 v.kernel ≡ false)
begin_conn-lost_example =
    begin_conn-lost kernel default_config env readable 6 expecting expecting-IsSound refl no_6

-- A request line has arrived, and some of a field.
abbrev within : Conn
within = record (init_conn env) {
  io_rx = codes "GET /a HTTP/1.1\r\nAcc";
  parsed_to_idx = 17;
  req = get_req;
}

within-IsWithin : IsWithin within
unfolding find_str
within-IsWithin = record {
  state = refl;
  fine = refl;
  no_line = refl;
  some_bytes = refl;
  small = omega arith;
}

handle_in-IsWithin_example :
    let ended : Conn = record within { keep_alive = false } in
    (v : World Interest) × (handle_in kernel env
        (record { rx = closed ∷ []; tx = [] })
        pointer
        within
        serving
      ≡ ok v)
    × IsSound kernel v
    × (find 5 v.conns ≡ some (record { id = 0; conn = ended }))
    × (kernel.armed 5 v.kernel ≡ true)
    × IsWithin ended
handle_in-IsWithin_example =
    handle_in-IsWithin kernel env pointer within serving serving-IsSound serving-Holds
      within-IsWithin
