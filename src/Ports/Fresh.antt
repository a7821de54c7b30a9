-- ===== src/Ports/Fresh.antt =====
-- What a pair of ports that the manager gives out is worth, and when it gives one out.
use fz_server.Prelude.{
  ℕ, zero, suc, ◌+◌, ◌-◌, ◌%◌, ◌<◌, ◌≡◌, refl, sym, ap, ◌∙◌, ◌⊎◌, inl, inr, false, ◌||◌, Option,
  some, arith, ◌==◌, Bool-cases, subst, ◌≢◌,
}
use fz_server.Word.{u16}
use fz_server.Ports.{
  Os, Answer, free, not_free, thrown, PortManager, Ports, pair, failed, is_allocated, insert_port,
  is_port_available, generate_ports,
}

-- An even port and the next one, both unused before; behind the call these two are recorded, and the
-- other ports are as before.
pub record IsGranted (pm : PortManager) (rtp rtcp : ℕ) (after : PortManager) : Type 0 where
  pub even : rtp % 2 ≡ 0
  pub next : rtcp ≡ rtp + 1
  pub rtp_fresh : is_allocated rtp pm ≡ false
  pub rtcp_fresh : is_allocated rtcp pm ≡ false
  pub records :
      (port : ℕ) → is_allocated port after ≡ (rtcp == port || (rtp == port || is_allocated port pm))

-- The ports that round t tries.
abbrev pub rtp_of : Os → ℕ → ℕ
rtp_of os t = u16 (os.draw t) - u16 (os.draw t) % 2

abbrev pub rtcp_of : Os → ℕ → ℕ
rtcp_of os t = u16 (rtp_of os t + 1)

is_allocated-insert_port :
    (port p : ℕ) (ps : PortManager)
    → is_allocated port (insert_port p ps) ≡ (p == port || is_allocated port ps)
unfolding insert_port is_allocated
is_allocated-insert_port port p ps = elim (Bool-cases (is_allocated p ps)) [
  | inl old ↦ rw old (ground (arith, old))
  | inr fresh ↦ rw fresh refl
]

Answer-cases : (a : Answer) → (a ≡ free) ⊎ ((a ≡ not_free) ⊎ (a ≡ thrown))
Answer-cases free = inl refl
Answer-cases not_free = inr (inl refl)
Answer-cases thrown = inr (inr refl)

is_port_available-fresh :
    (os : Os) (t : ℕ) (pm : PortManager) (port : ℕ)
    → is_port_available os t pm port ≡ free
    → is_allocated port pm ≡ false
unfolding is_port_available
is_port_available-fresh os t pm port h = ground (arith, h)

abbrev Outcome : PortManager → Option Ports → Type 0
Outcome pm r =
    (r ≡ some failed)
    ⊎ ((rtp : ℕ) × (rtcp : ℕ) × (after : PortManager) × (r ≡ some (pair rtp rtcp after))
        × IsGranted pm rtp rtcp after)

-- One round, for each answer to its two ports.
module _ (fuel : ℕ) (os : Os) (t : ℕ) (pm : PortManager) where
  abbrev rtp_answer : Answer
  rtp_answer = is_port_available os t pm (rtp_of os t)

  abbrev rtcp_answer : Answer
  rtcp_answer = is_port_available os t pm (rtcp_of os t)

  rtp_thrown : rtp_answer ≡ thrown → generate_ports (suc fuel) os t pm ≡ some failed
  unfolding generate_ports
  rtp_thrown e = rw (e, generate_ports)

  rtp_not_free :
      rtp_answer ≡ not_free → generate_ports (suc fuel) os t pm ≡ generate_ports fuel os (t + 1) pm
  unfolding generate_ports
  rtp_not_free e = rw (e, generate_ports)

  rtcp_thrown :
      rtp_answer ≡ free → rtcp_answer ≡ thrown → generate_ports (suc fuel) os t pm ≡ some failed
  unfolding generate_ports
  rtcp_thrown e f = rw (e, f, generate_ports)

  rtcp_not_free :
      rtp_answer ≡ free
      → rtcp_answer ≡ not_free
      → generate_ports (suc fuel) os t pm ≡ generate_ports fuel os (t + 1) pm
  unfolding generate_ports
  rtcp_not_free e f = rw (e, f, generate_ports)

  both_free :
      rtp_answer ≡ free → rtcp_answer ≡ free → Outcome pm (generate_ports (suc fuel) os t pm)
  unfolding generate_ports
  both_free e f = inr (
    rtp_of os t,
    rtcp_of os t,
    _,
    rw (e, f, generate_ports),
    record {
      even = omega arith;
      next = omega arith;
      rtp_fresh = is_port_available-fresh os t pm (rtp_of os t) e;
      rtcp_fresh = is_port_available-fresh os t pm (rtcp_of os t) f;
      records = λ port.
          is_allocated-insert_port port (rtcp_of os t) (insert_port (rtp_of os t) pm)
          ∙ ap (λ b. rtcp_of os t == port || b) (is_allocated-insert_port port (rtp_of os t) pm);
    },
  )

free≢not_free : not_free ≢ free
free≢not_free e = absurd (cc e)

abbrev IsUsable : Os → ℕ → PortManager → Type 0
IsUsable os t pm =
    (is_port_available os t pm (rtp_of os t) ≡ free)
    × (is_port_available os t pm (rtcp_of os t) ≡ free)

-- A round that is usable and is not this one comes later.
not_yet :
    (fuel : ℕ) (os : Os) (t : ℕ) (pm : PortManager) (k : ℕ)
    → k < suc fuel
    → is_port_available os (t + k) pm (rtp_of os (t + k)) ≡ free
    → is_port_available os (t + k) pm (rtcp_of os (t + k)) ≡ free
    → (is_port_available os t pm (rtp_of os t) ≡ not_free)
      ⊎ (is_port_available os t pm (rtcp_of os t) ≡ not_free)
    → ((j : ℕ)
        → j < fuel
        → is_port_available os (t + 1 + j) pm (rtp_of os (t + 1 + j)) ≡ free
        → is_port_available os (t + 1 + j) pm (rtcp_of os (t + 1 + j)) ≡ free
        → Outcome pm (generate_ports fuel os (t + 1) pm))
    → Outcome pm (generate_ports fuel os (t + 1) pm)
not_yet fuel os t pm zero lt f g bad later =
    let (f', g') = subst (λ r. IsUsable os r pm) {x = t + 0} {y = t} (omega arith) (f, g) in
    absurd (elim bad [ inl e ↦ free≢not_free (sym e ∙ f') | inr e ↦ free≢not_free (sym e ∙ g') ])
not_yet fuel os t pm (suc k) lt f g bad later =
    let (f', g') =
      subst (λ r. IsUsable os r pm) {x = t + suc k} {y = t + 1 + k} (omega arith) (f, g) in
    later k (omega arith) f' g'

-- `generatePorts` returns where within the fuel a round draws an even port and the next one that
-- are both neither recorded nor in use: it throws where a socket cannot be created, or else it
-- gives out an even port and the next one, neither of which was recorded before, and behind it
-- exactly these two are recorded besides the old ones.
pub generate_ports-IsGranted :
    (fuel : ℕ) (os : Os) (round k : ℕ) (pm : PortManager)
    → k < fuel
    → is_port_available os (round + k) pm (rtp_of os (round + k)) ≡ free
    → is_port_available os (round + k) pm (rtcp_of os (round + k)) ≡ free
    → (generate_ports fuel os round pm ≡ some failed)
      ⊎ ((rtp : ℕ) × (rtcp : ℕ) × (after : PortManager) × (generate_ports fuel os round pm
            ≡ some (pair rtp rtcp after))
          × IsGranted pm rtp rtcp after)
generate_ports-IsGranted zero os t k pm lt f g = absurd (omega arith)
generate_ports-IsGranted (suc fuel) os t k pm lt f g =
    elim (Answer-cases (rtp_answer fuel os t pm)) [
      | inr (inr e) ↦ inl (rtp_thrown fuel os t pm e)
      | inr (inl e) ↦ subst (Outcome pm) (sym (rtp_not_free fuel os t pm e)) (
          not_yet fuel os t pm k lt f g (inl e)
            (λ j. generate_ports-IsGranted fuel os (t + 1) j pm))
      | inl e ↦ elim (Answer-cases (rtcp_answer fuel os t pm)) [
        | inr (inr e') ↦ inl (rtcp_thrown fuel os t pm e e')
        | inr (inl e') ↦ subst (Outcome pm) (sym (rtcp_not_free fuel os t pm e e')) (
            not_yet fuel os t pm k lt f g (inr e')
              (λ j. generate_ports-IsGranted fuel os (t + 1) j pm))
        | inl e' ↦ both_free fuel os t pm e e'
      ]
    ]
