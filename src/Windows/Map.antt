-- ===== src/Windows/Map.antt =====
-- view.c: a window is mapped, unmapped and destroyed. Its place on the screen is not in the state.
use sg_compositor.Prelude.{
  ℕ, Bool, true, false, not, ◌&&◌, List, [], ◌∷◌, Option, none, some, if◌then◌else◌, find, is_some,
}
use sg_compositor.World.{
  Surface, View, Layer, normal_layer, elevated_layer, privileged_layer, Lock, Server, Host, same_id,
  find_view, remove_view, forget,
}
use sg_compositor.Lock.Access.{lock_view_is_privileged}
use sg_compositor.Lock.Engage.{lock_view_mapped}
use sg_compositor.Seat.Pointer.{is_xwayland}
use sg_compositor.Seat.Focus.{seat_set_focus}

-- An override-redirect window is not the compositor's to manage (xwayland_view_should_manage).
abbrev pub unmanaged : View → Bool
unmanaged v = is_xwayland v.type && v.override_redirect

-- The tree that a window goes into.
unfoldable pub parent_layer : Lock → View → Layer
parent_layer l v =
    if is_some v.elevated
    then elevated_layer
    else if lock_view_is_privileged l v
    then privileged_layer
    else normal_layer

-- The view with its surface and a scene tree of its own, shown if it may be.
unfoldable pub mapped_view : Server → View → Surface → View
unfolding parent_layer
mapped_view s v u =
    let w = record v { surface = some u } in
    lock_view_mapped s (record w { has_tree = true; enabled = true; layer = parent_layer s.lock w })

-- view_map; `tree` says whether wlr_scene_subsurface_tree_create gave a tree. Without one the view
-- stays out of the list.
unfoldable pub view_map : Host → Bool → View → Surface → Server → Server
view_map h false v u s = s
view_map h true v u s =
    let t : Server = record s { views = mapped_view s v u ∷ s.views } in
    if unmanaged v then t else seat_set_focus h v.id t

-- Removing the view and every pointer to it.
unfoldable pub drop_view : ℕ → Server → Server
drop_view i s = record s {
  views = remove_view i s.views;
  keyboard_focus = forget i s.keyboard_focus;
  pointer_focus = forget i s.pointer_focus;
  grab_view = forget i s.grab_view;
}

abbrev pub next_focus : View → Bool
next_focus v = not (unmanaged v) && is_some v.surface

unfoldable pub refocus : Host → Option View → Server → Server
refocus h none s = s
refocus h (some v) s = seat_set_focus h v.id s

-- view_unmap: the keyboard goes on to the window now in front.
unfoldable pub unmap_view : Host → View → Server → Server
unmap_view h v s =
    let t = drop_view v.id s in
    if is_some v.surface && same_id s.keyboard_focus (some v.id)
    then refocus h (find next_focus t.views) t
    else t

unfoldable pub view_unmap : Host → ℕ → Server → Server
view_unmap h i s = elim (find_view i s.views) [ none ↦ s | some v ↦ unmap_view h v s ]

unfoldable pub front : List View → Option View
front [] = none
front (v ∷ vs) = some v

-- view_destroy: unmapped if it was mapped; then the first view has the focus.
unfoldable pub view_destroy : Host → ℕ → Server → Server
view_destroy h i s = let t = view_unmap h i s in refocus h (front t.views) t
