-- ===== src/Tests/Config.antt =====
-- The configuration file and the listening socket on concrete inputs.
use fz_server.Prelude.{◌≡◌, refl, ◌⊎◌, true, false, List, [], ◌∷◌, none, some, arith, if◌then◌else◌}
use fz_server.Prelude.Int.{pos, negsuc, negative}
use fz_server.Text.{bytes, equals}
use fz_server.Text.Decimal.{show_int, show_nat}
use fz_server.Word.{htons}
use fz_server.Net.{to_u16}
use fz_server.Ini.{IniFile, new_ini, trim_left, trim_right, load, save}
use fz_server.Ini.Ordered.{less}
use fz_server.Map.{lookup}
use fz_server.Ini.Values.{of_int}
use fz_server.Ini.Views.{view, IsStore, set-get-IsStore}
use fz_server.Ini.Sorted.{IsOrdered}
use fz_server.Ini.RoundTrip.{AreSections, load-save}
use fz_server.Server.Loop.{
  SocketCalls, initserver, Ready, EpollServer, is_watched, event_loop, init, configured_port,
}
use fz_server.Server.Watched.{opens, IsServing, AllHealthy, CrashesInRounds, event_loop-IsServing}
use fz_server.Server.Opened.{listening_on, failed_with, init-IsServing}
use fz_server.Server.Port.{configured_port-save}
use fz_server.Server.Runs.{start, start-IsSound}
use fz_server.Tests.{net}
use fz_server.Tests.Dialogue.{setup_event}

-- [log] path = a b, [server] port = 8554.
abbrev config : IniFile
config = record {
  filename = bytes "config.ini";
  sections =
      (bytes "log", (bytes "path", bytes "a b") ∷ [])
      ∷ (bytes "server", (bytes "port", bytes "8554") ∷ [])
      ∷ [];
}

config-IsOrdered : IsOrdered config.sections
unfolding less
config-IsOrdered = record { names = ((refl, tt), (tt, tt)); entries = ((tt, tt), ((tt, tt), tt)) }

config-AreSections : AreSections config.sections
unfolding trim_left trim_right
config-AreSections = (
  record {
    trimmed = record { left = refl; right = refl };
    no_newline = omega arith;
    no_bracket = omega arith;
  },
  (
    record {
      trimmed = record { left = refl; right = refl };
      no_newline = omega arith;
      no_equals = omega arith;
      no_header = refl;
    },
    record { trimmed = record { left = refl; right = refl }; no_newline = omega arith },
    tt,
  ),
  (
    record {
      trimmed = record { left = refl; right = refl };
      no_newline = omega arith;
      no_bracket = omega arith;
    },
    (
      record {
        trimmed = record { left = refl; right = refl };
        no_newline = omega arith;
        no_equals = omega arith;
        no_header = refl;
      },
      record { trimmed = record { left = refl; right = refl }; no_newline = omega arith },
      tt,
    ),
    tt,
  ),
)

load-save_example :
    ((save true config).0 ≡ true)
    × (load (bytes "b.ini") (save true config).1 new_ini
        ≡ (false, record { filename = bytes "b.ini"; sections = config.sections }))
load-save_example =
    load-save config new_ini (bytes "b.ini") config-IsOrdered config-AreSections refl

set-get-IsStore_example : IsStore config (bytes "server") (bytes "host") (bytes "10.0.0.7")
set-get-IsStore_example = set-get-IsStore config (bytes "server") (bytes "host") (bytes "10.0.0.7")

has_port : view config (bytes "server") (bytes "port") ≡ some (of_int (pos 8554))
unfolding lookup of_int equals show_int show_nat
has_port = refl

configured_port-save_example :
    (configured_port (save true config).1 ≡ pos 8554) × (configured_port none ≡ pos 0)
configured_port-save_example =
    configured_port-save config (pos 8554) config-IsOrdered config-AreSections has_port

-- The listening socket is 4. A client connects on 5, asks, and its connection breaks.
abbrev connects : Ready
connects = record { broken = false; fd = pos 4; accepted = pos 5; request = setup_event }

abbrev asks : Ready
asks = record { broken = false; fd = pos 5; accepted = pos 0; request = setup_event }

abbrev breaks : Ready
breaks = record { broken = true; fd = pos 5; accepted = pos 0; request = setup_event }

abbrev rounds : List (List Ready)
rounds = (connects ∷ []) ∷ (asks ∷ breaks ∷ []) ∷ []

abbrev listening : EpollServer
listening = record { server_fd = pos 4; watched = pos 4 ∷ []; shared = start net }

listening-IsServing : IsServing (pos 4) listening
unfolding is_watched
listening-IsServing = record {
  sound = start-IsSound net;
  distinct = (refl, tt);
  is_server = refl;
  listening = refl;
}

rounds-AllHealthy : AllHealthy (pos 4) rounds
rounds-AllHealthy = ((refl, tt), ((refl, (refl, tt)), tt))

event_loop-IsServing_example :
    ((event_loop rounds listening ≡ none) × CrashesInRounds rounds listening)
    ⊎ ((s' : EpollServer) × (event_loop rounds listening ≡ some (negsuc 0, s'))
        × IsServing (pos 4) s')
event_loop-IsServing_example =
    event_loop-IsServing (pos 4) rounds listening listening-IsServing rounds-AllHealthy

-- All three calls succeed.
abbrev calls : SocketCalls
calls = record { socket = pos 4; bind_ok = true; listen_ok = true }

init-IsServing_example :
    let l = initserver calls (pos 8554) in
    ((opens calls ≡ false)
      × (init calls (pos 8554) rounds (start net) ≡ some (negsuc 0, failed_with (start net)))
      × (l.closed ≡ (if negative calls.socket then [] else calls.socket ∷ [])))
    ⊎ ((opens calls ≡ true)
        × (l.closed ≡ [])
        × (l.sin_port ≡ some (htons (to_u16 (pos 8554))))
        × (((init calls (pos 8554) rounds (start net) ≡ none)
              × CrashesInRounds rounds (listening_on (pos 4) (start net)))
            ⊎ ((s : EpollServer) × (init calls (pos 8554) rounds (start net) ≡ some (negsuc 0, s))
                × IsServing (pos 4) s)))
init-IsServing_example =
    init-IsServing calls (pos 8554) rounds (start net) (start-IsSound net) rounds-AllHealthy
