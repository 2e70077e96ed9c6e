-- ===== src/Seat/Activity.antt =====
-- seat_notify_activity (seat.c): input also turns a screen that display power turned off back on.
use sg_compositor.World.{Server, Host, notified_activity, log_effect}
use sg_compositor.Outputs.{output_power_wake}

unfoldable pub seat_notify_activity : Host → Server → Server
unfolding output_power_wake
seat_notify_activity h s = output_power_wake h (log_effect notified_activity s)
