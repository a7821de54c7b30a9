-- ===== src/Server/Port.antt =====
-- The port that the server listens on: from the configuration file to `bind`.
use fz_server.Prelude.{◌≡◌, refl, ap, ◌∙◌, none, some, [], true}
use fz_server.Prelude.Int.{ℤ, pos}
use fz_server.Text.{bytes}
use fz_server.Map.{lookup, bytes_eq}
use fz_server.Ini.{IniFile, new_ini, load, save, get}
use fz_server.Ini.Values.{of_int, to_int, to_int-of_int}
use fz_server.Ini.Views.{view, or_empty, set-get-IsStore}
use fz_server.Ini.Sorted.{IsOrdered}
use fz_server.Ini.RoundTrip.{AreSections, load-save}
use fz_server.Server.Loop.{configured_port}

-- Where the file of the configuration is what `save` wrote of sections and keys in order, with
-- names, keys and values that are trimmed and have no newline, the names no `]`, the keys no `=`
-- and no `[` in front, and the port stands under `server`, `run` reads that port from it; without
-- the file it reads port 0.
pub configured_port-save :
    (ini : IniFile) (port : ℤ)
    → IsOrdered ini.sections
    → AreSections ini.sections
    → view ini (bytes "server") (bytes "port") ≡ some (of_int port)
    → (configured_port (save true ini).1 ≡ port) × (configured_port none ≡ pos 0)
unfolding configured_port to_int load lookup
configured_port-save ini port o h v = (
  ap (λ (f : IniFile). to_int (get (bytes "server") (bytes "port") f).0)
        (ap (λ p. p.1) (load-save ini new_ini (bytes "conf/config.ini") o h refl).1)
      ∙ ap to_int (
          (set-get-IsStore (record { filename = bytes "conf/config.ini"; sections = ini.sections })
            (bytes "server") (bytes "port") []).get_is
          ∙ ap or_empty v)
      ∙ (to_int-of_int port true).0,
  ap to_int
        (set-get-IsStore (load (bytes "conf/config.ini") none new_ini).1 (bytes "server")
          (bytes "port") []).get_is
      ∙ refl,
)
