-- ===== src/Lib.antt =====
-- sg-compositor, the Wayland compositor of Stained Glass OS (C, on wlroots), as functions on its state.
--
-- The program. The compositor keeps the session's windows, gives one of them the keyboard and one the
-- pointer, and decides who sees what while the machine is locked, while a secure prompt is up, or on
-- the security screen of Ctrl+Alt+Del (lock.c). A lock service owns the lock screen: it connects to a
-- privileged socket, and asks for transitions on a control socket, where the kernel names the peer.
-- Remote Desktop can take the session to an output of its own, or a helper can view it.
--
-- The model. World has the shared state: struct cg_server (server.h), cg_lock (lock.h), cg_view
-- (view.h), cg_seat (seat.h) and cg_output (output.h) as records; a pointer to a view, a client, an
-- output or a global, and a descriptor, is a number; a list keeps its order. A handler is a function
-- on the state, and where it returns a bool, on the state and a Bool. What the kernel and wlroots
-- answer is the record Host, a parameter of each step: whether a send succeeds, which window is under
-- the cursor, whether an output's state commits, whether memory is given. What the compositor tells
-- the outside is the state's log, newest first. Nothing is assumed of a Host but what a result says.
-- wlroots passes the calls that clear the keyboard's focus or give it to a surface to the grab of the
-- seat's keyboard, and the grab of a popup or a drag ignores them. Host answers at each such call
-- whether it is ignored (keyboard_grabbed), and the state keeps that answer for the last call that
-- clears the focus (keyboard_kept), which no handler reads. The pointer has such grabs too: they
-- may leave it with no window where the model gives it to the one under the cursor.
--
--   Prelude     helpers on Booleans, options and lists
--   World       the shared state; view_set_visible
--   Outputs     output.c: outputs that come and go, the multi-output mode, display power
--   Seat        seat.c: seat_set_focus, process_cursor_motion, desktop_view_at, and of elevated.c and
--               wayland_app.c when a drag ends
--   Lock        lock.c: uids, privileged clients, watchers, isolate and unisolate and the transitions
--               on them; Globals has global_filter and elevated_filter_global (elevated.c)
--   Windows     view.c: view_map, view_unmap, view_destroy; minimising, restoring and activating of
--               elevated.c, session_x11.c and wayland_app.c
--   Remote      lock.c: the privileged socket, the console shadow, Remote Desktop, a client's end
--   Idle        idle_inhibit_v1.c and the INHIBIT connections
--   Control     lock.c: handle_control_connection, one function per request
--   Keys        seat.c: handle_key_event, the reserved keys, the consumed keys
--   Capture     public_capture.c: secure_now, fill, and the life of a frame (Frames)
--   Isolation   the invariant of the isolation, one file per group of handlers
--   Authority   what each handler leaves of a lock
--   System      the events, one step of the compositor, and the states that can be reached
--   Decor       decor.c: the look that effects.conf sets (Conf), the title's text (Text), drawing into
--               the bar's pixels (Pixels), the program's icon (Icon), where the frames and their
--               buttons are (Frames), what the mouse does to them (Mouse)
--   Apps        wayland_app.c: the place, size and clip of a native window, maximised, a full screen,
--               moved and sized (Handlers has the program's requests and commits)
--   Effects     sg-deskcomp.c, an X client of its own that draws the windows of an X desktop: its array
--               of windows (Entries), their order (Stacking), what a window damages (Reach), the X
--               events (Handlers, Configure), a window that X draws itself (Direct), paint's loop
--               (Painting), what stays true (Tidy)
--   Examples    a run on concrete values, and the theorems on it
--
-- How the parts meet. A handler's calls are the calls of the model: lock_engage tells the watchers and
-- moves the focus, seat_set_focus moves the pointer, remote_detach locks, drops its output and ends
-- its client, whose listeners run in the order in which they were added. A client that ends is no
-- longer privileged before its windows are unmapped; in between the invariant excuses its windows.
-- That they are unmapped then, when libwayland destroys a client's resources, is the part of
-- wl_client_destroy that is written out (Remote.Clients.destroy_resources); their destruction is an
-- event of its own.
--
-- The frames of decor.c have a state of their own, Decor.Frames.Frames, with what decor.c reads and
-- writes of its windows; what they ask of the seat and of X is a list of requests. The pixels of a bar
-- are a list of words, and an access outside it gives none. Of FreeType only the advance of a glyph is
-- used, of the scene the bar under a point; both are parameters.
--
-- Every function is total. Loops are structural on lists or counted. Four loops of decor.c run on
-- fuel: reading lines (fuel: the bytes of the file; a line takes at least one), text_width (the bytes
-- of the text), draw_title's cut (the length of the title; each round shortens it) and the entries
-- of an icon (its values; an entry takes at least three). The lemmas read_lines_lem,
-- width_from_fuel, shorten-IsLongest and entries_from_fuel say that it is enough.
--
-- A native window's geometry is a state of its own too, Apps.App, with what the seat keeps of a grab;
-- minimising and activating, which need no geometry, are in the shared state.
--
-- sg-deskcomp.c's state is Effects.Handlers.Effects; what the X server answers while an event is
-- handled is the record Server. What it computes in floating point, whether an animation has ended
-- and how far a wobble reaches, is a parameter. paint's loop runs on fuel, the number of entries.
--
-- Not modelled: positions and sizes of other windows than decor.c's and wayland_app.c's; what render of decor.c puts together from its parts, with corners
-- and glyphs in floating point, and drawing in backdrop.c, sg-deskcomp.c and the frame round a
-- viewed screen; touch and tablet
-- tools; keyboard groups and which keys are held when a window gets the focus; the clipboard proxies
-- and the adoption of an elevated display (elevated.c); the requests ELEVATED and XKILL and the texts of
-- the listings; the output management protocol; start-up (cage.c) but for the state that it leaves.
-- A request's text is a value of Command: the strcmp chain of handle_control_connection tells the
-- same cases apart. control_inhibitors and inhibitors count what exists, so that their decrement
-- does not pass 0.
pub mod Prelude
pub mod World
pub mod Outputs
pub mod Seat
pub mod Lock
pub mod Isolation
pub mod Windows
pub mod Remote
pub mod Idle
pub mod Control
pub mod Keys
pub mod Capture
pub mod Authority
pub mod System
pub mod Decor
pub mod Apps
pub mod Effects
mod Examples
