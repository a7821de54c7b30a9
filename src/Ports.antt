-- ===== src/Ports.antt =====
-- src/utility/portManager.h. The random numbers and the answers of `socket` and `bind` are parameters.
pub mod Fresh
use fz_server.Prelude.{
  ℕ, zero, suc, ◌+◌, ◌-◌, ◌%◌, Bool, true, false, ◌||◌, List, [], ◌∷◌, Option, none, some, ◌==◌,
  if◌then◌else◌,
}
use fz_server.Word.{u16}

pub data Probe : Type 0 where
  no_socket taken available : Probe

-- The outside of the manager: `draw t` is what the generator gives in round t, and `probe t port` what
-- the kernel says to a socket that is bound to `port` in that round.
pub record Os : Type 0 where
  pub draw : ℕ → ℕ
  pub probe : ℕ → ℕ → Probe

abbrev pub PortManager : Type 0
PortManager = List ℕ

-- `allocatedPorts.count(port) > 0`.
unfoldable pub is_allocated : ℕ → PortManager → Bool
is_allocated port [] = false
is_allocated port (p ∷ ps) = p == port || is_allocated port ps

unfoldable pub insert_port : ℕ → PortManager → PortManager
unfolding is_allocated
insert_port port ps = if is_allocated port ps then ps else port ∷ ps

unfoldable pub erase_port : ℕ → PortManager → PortManager
erase_port port [] = []
erase_port port (p ∷ ps) = let rest = erase_port port ps in if p == port then rest else p ∷ rest

-- `thrown` is the `system_error` of a socket that could not be created.
pub data Answer : Type 0 where
  free not_free thrown : Answer

unfoldable pub is_port_available : Os → ℕ → PortManager → ℕ → Answer
is_port_available os round pm port =
    if is_allocated port pm
    then not_free
    else elim (os.probe round port) [ no_socket ↦ thrown | taken ↦ not_free | available ↦ free ]

pub data Ports : Type 0 where
  -- A pair of ports, and the manager with both recorded.
  pair : ℕ → ℕ → PortManager → Ports
  failed : Ports

-- The `while (true)`; the result is `none` when the fuel runs out.
unfoldable pub generate_ports : ℕ → Os → ℕ → PortManager → Option Ports
unfolding is_port_available insert_port
generate_ports zero os round pm = none
generate_ports (suc fuel) os round pm =
    let rtp_port = u16 (os.draw round) - u16 (os.draw round) % 2 in
    let rtcp_port = u16 (rtp_port + 1) in
    elim (is_port_available os round pm rtp_port) [
      | thrown ↦ some failed
      | not_free ↦ generate_ports fuel os (round + 1) pm
      | free ↦ elim (is_port_available os round pm rtcp_port) [
        | thrown ↦ some failed
        | not_free ↦ generate_ports fuel os (round + 1) pm
        | free ↦ some (pair rtp_port rtcp_port (insert_port rtcp_port (insert_port rtp_port pm)))
      ]
    ]

unfoldable pub release_ports : ℕ → ℕ → PortManager → PortManager
unfolding erase_port
release_ports rtp_port rtcp_port pm = erase_port rtcp_port (erase_port rtp_port pm)
