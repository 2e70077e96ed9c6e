-- ===== src/Idle/Holds.antt =====
-- lock.c and idle_inhibit_v1.c: an INHIBIT connection from its request to its end.
use sg_compositor.Prelude.{ℕ, true, false, not, ◌||◌, ◌+◌, ◌-◌, Option, arith, ◌≡◌, ◌==◌}
use sg_compositor.World.{Server, Host, reply, ok_inhibited}
use sg_compositor.Lock.Access.{uid_may_lock}
use sg_compositor.Idle.{idle_inhibit_v1_check_active, handle_inhibit_event}
use sg_compositor.Control.Connections.{Outcome, answered, kept, greet_inhibitor, control_inhibit}

-- The idle notifier was told how it is.
abbrev pub IsCurrent : Server → Type 0
IsCurrent s = s.idle_inhibited ≡ not (s.inhibitors == 0) || not (s.control_inhibitors == 0)

-- The state after a request, before its end.
abbrev pub outcome_state : Outcome → Server
outcome_state (answered s passed a) = s
outcome_state (kept s) = s

counted_back : (n : ℕ) → ((n + 1) - 1 ≡ n) × (((n + 1) == 0) ≡ false)
counted_back n = (omega arith, ground arith)

-- Where the idle notifier was told how it is, the peer may lock, memory is given and the reply
-- can be sent, an INHIBIT inhibits idling, and the end of its connection brings back the count
-- and what the notifier is told.
pub control_inhibit-handle_inhibit_event :
    (h : Host) (u fd : ℕ) (passed : Option ℕ) (s : Server)
    → IsCurrent s
    → uid_may_lock h s.lock u ≡ true
    → h.calloc_ok ≡ true
    → h.send_ok fd (reply ok_inhibited) ≡ true
    → ((outcome_state (control_inhibit h u fd passed s)).idle_inhibited ≡ true)
      × ((handle_inhibit_event fd
            (outcome_state (control_inhibit h u fd passed s))).control_inhibitors
          ≡ s.control_inhibitors)
      × ((handle_inhibit_event fd (outcome_state (control_inhibit h u fd passed s))).idle_inhibited
          ≡ s.idle_inhibited)
unfolding control_inhibit greet_inhibitor idle_inhibit_v1_check_active handle_inhibit_event
control_inhibit-handle_inhibit_event h u fd passed s current allowed room sent =
    ground (arith, counted_back s.control_inhibitors)
