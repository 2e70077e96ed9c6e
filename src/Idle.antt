-- ===== src/Idle.antt =====
-- idle_inhibit_v1.c, and lock.c's INHIBIT connections: what keeps the screen on.
pub mod Holds
use sg_compositor.Prelude.{ℕ, not, ◌||◌, ◌==◌, ◌+◌, ◌-◌, if◌then◌else◌}
use sg_compositor.World.{Server, Host, closed, log_effect}

-- idle_inhibit_v1_check_active; idle_inhibited is what the idle notifier was told last.
unfoldable pub idle_inhibit_v1_check_active : Server → Server
idle_inhibit_v1_check_active s = record s {
  idle_inhibited = not (s.inhibitors == 0) || not (s.control_inhibitors == 0);
}

-- handle_idle_inhibitor_v1_new
unfoldable pub handle_idle_inhibitor_v1_new : Host → Server → Server
unfolding idle_inhibit_v1_check_active
handle_idle_inhibitor_v1_new h s =
    if not h.calloc_ok
    then s
    else idle_inhibit_v1_check_active (record s { inhibitors = s.inhibitors + 1 })

-- handle_destroy. There is an inhibitor: the one that goes.
unfoldable pub handle_inhibitor_destroy : Server → Server
unfolding idle_inhibit_v1_check_active
handle_inhibitor_destroy s =
    idle_inhibit_v1_check_active (record s { inhibitors = s.inhibitors - 1 })

-- handle_inhibit_event: an INHIBIT connection (there is one) hung up, or wrote something.
unfoldable pub handle_inhibit_event : ℕ → Server → Server
unfolding idle_inhibit_v1_check_active
handle_inhibit_event fd s =
    idle_inhibit_v1_check_active
      (record (log_effect (closed fd) s) { control_inhibitors = s.control_inhibitors - 1 })
