-- ===== src/Lock/Globals.antt =====
-- lock.c and elevated.c: which of the compositor's globals a client can see.
use sg_compositor.Prelude.{
  ℕ, suc, Bool, true, false, not, ◌&&◌, ◌||◌, List, [], ◌∷◌, ◌++◌, Option, none, some, ◌==◌,
  if◌then◌else◌, any, ltb,
}
use sg_compositor.World.{Lock, Server, same_id}
use sg_compositor.Lock.Access.{lock_client_is_privileged}

-- The names of the interfaces that the code compares with, and any other.
pub data Interface : Type 0 where
  xwayland_shell_v1 seat_interface data_device_manager primary_selection other_interface : Interface

pub record Global : Type 0 where
  pub id : ℕ
  pub name : Interface

-- struct cg_elevated: an elevated X server, its shell's and its hidden clipboard seat's global.
pub record Elevated : Type 0 where
  pub client : ℕ
  pub shell : Option ℕ
  pub clip_seat : Option ℕ

-- The elevated displays, the session's X server, and the seat's global.
pub record Displays : Type 0 where
  pub elevated : List Elevated
  pub xwayland_shell : Option ℕ
  pub xwayland_client : Option ℕ  -- none without a server
  pub seat_global : ℕ

-- lock_restrict_global: the array has sixteen places.
unfoldable pub lock_restrict_global : Option ℕ → Lock → Lock
lock_restrict_global none l = l
lock_restrict_global (some g) l =
    if ltb (count l.restricted) 16 then record l { restricted = l.restricted ++ (g ∷ []) } else l
  where
    count : List ℕ → ℕ
    count [] = 0
    count (x ∷ xs) = suc (count xs)

-- lock_restrict_input_global; no caller passes NULL.
unfoldable pub lock_restrict_input_global : ℕ → Lock → Lock
unfolding lock_restrict_global
lock_restrict_input_global g l =
    let m = lock_restrict_global (some g) l in
    elim (m.input_global_0) [
      | none ↦ record m { input_global_0 = some g }
      | some x ↦ elim (m.input_global_1) [
        | none ↦ record m { input_global_1 = some g }
        | some y ↦ m
      ]
    ]

-- elevated_client
unfoldable pub elevated_client : Displays → ℕ → Bool
elevated_client d c = any (λ e. e.client == c) d.elevated

-- The loop over the elevated displays: none when the global is not one of theirs.
unfoldable pub elevated_global : List Elevated → ℕ → ℕ → Option Bool
elevated_global [] c g = none
elevated_global (e ∷ es) c g =
    let rest = elevated_global es c g in
    if same_id e.shell (some g)
    then some (c == e.client)
    else if same_id e.clip_seat (some g)
    then some false
    else rest

-- What is decided by the interface's name alone.
unfoldable pub hidden_interface : Displays → ℕ → ℕ → Interface → Bool
unfolding elevated_client
hidden_interface d c g xwayland_shell_v1 = true
hidden_interface d c g seat_interface = not (g == d.seat_global)
hidden_interface d c g data_device_manager = elevated_client d c
hidden_interface d c g primary_selection = elevated_client d c
hidden_interface d c g other_interface = false

-- elevated_filter_global; none is -1, not decided here.
unfoldable pub elevated_filter_global : Displays → ℕ → Global → Option Bool
unfolding hidden_interface elevated_global
elevated_filter_global d c g = elim (elevated_global d.elevated c g.id) [
  | some b ↦ some b
  | none ↦
      if same_id d.xwayland_shell (some g.id)
      then some (same_id d.xwayland_client (some c))
      else if hidden_interface d c g.id g.name
      then some false
      else none
]

-- A viewer that may not type, and what types.
abbrev pub view_only_input : Server → ℕ → ℕ → Bool
view_only_input s c g =
    same_id s.shadow_client (some c)
    && not s.shadow_control
    && (same_id s.lock.input_global_0 (some g) || same_id s.lock.input_global_1 (some g))

-- global_filter after elevated_filter_global
unfoldable pub lock_filter_global : Server → ℕ → ℕ → Bool
lock_filter_global s c g =
    if view_only_input s c g
    then false
    else if any (λ r. r == g) s.lock.restricted
    then lock_client_is_privileged s.lock c
    else if same_id s.lock.public_capture (some g)
    then not (lock_client_is_privileged s.lock c)
    else true

unfoldable pub global_filter : Displays → Server → ℕ → Global → Bool
unfolding lock_filter_global
global_filter d s c g = elim (elevated_filter_global d c g) [
  | some b ↦ b
  | none ↦ lock_filter_global s c g.id
]
