-- ===== src/Outputs.antt =====
-- output.c: the outputs come and go, and display power. Modes, scale, positions and frames are not in
-- the state.
pub mod Power
use sg_compositor.Prelude.{
  ℕ, Bool, true, false, not, ◌&&◌, ◌||◌, List, [], ◌∷◌, map, Option, some, ◌==◌, if◌then◌else◌,
  keep, is_empty, any,
}
use sg_compositor.World.{Output, Server, Host, terminated, same_id, log_effect}

-- output_set_power: an output that Remote Desktop shows is never turned off.
unfoldable pub output_set_power : Host → Bool → Option ℕ → Bool → Output → Output
output_set_power h remote shown on o =
    if (if on then not o.powered_off else not o.enabled)
    then o
    else if not on && remote && same_id (some o.id) shown
    then o
    else if h.commit_ok o.id on
    then record o { enabled = on; powered_off = not on }
    else o

-- output_power_wake
unfoldable pub output_power_wake : Host → Server → Server
unfolding output_set_power
output_power_wake h s = record s {
  outputs =
      map (λ o. if o.powered_off then output_set_power h s.remote s.remote_output true o else o)
        s.outputs;
}

-- output_layout_add_auto and output_layout_remove: the box in the layout.
layout_add : Host → Output → Output
layout_add h o = record o { width = (h.layout_size o.id).0; height = (h.layout_size o.id).1 }

layout_remove : Output → Output
layout_remove o = record o { width = 0; height = 0 }

unfoldable pub output_enable : Host → Output → Output
unfolding layout_add
output_enable h o = if h.commit_ok o.id true then layout_add h (record o { enabled = true }) else o

unfoldable pub output_disable : Host → Output → Output
unfolding layout_remove
output_disable h o =
    if not o.enabled
    then o
    else layout_remove (record o { enabled = if h.commit_ok o.id false then false else true })

abbrev pub on_first : (Output → Output) → List Output → List Output
on_first f [] = []
on_first f (o ∷ os) = f o ∷ os

-- output_destroy
unfoldable pub output_destroy : Host → ℕ → Server → Server
unfolding output_enable
output_destroy h i s =
    let nested = any (λ o. if o.id == i then o.nested else false) s.outputs in
    let left = keep (λ o. not (o.id == i)) s.outputs in
    let t : Server = record s { outputs = left } in
    if is_empty left && nested
    then log_effect terminated t
    else if s.output_mode_last && not (is_empty left)
    then record t { outputs = on_first (output_enable h) left }
    else t

-- handle_new_output: the output joins the front of the list, and is enabled if its state commits.
unfoldable pub handle_new_output : Host → Output → Server → Server
unfolding output_enable output_disable
handle_new_output h o s =
    if not (h.init_render_ok o.id) || not h.calloc_ok
    then s
    else if not (h.scene_output_ok o.id)
    then record s { outputs = o ∷ s.outputs }
    else record s {
      outputs =
          output_enable h o
          ∷ (if s.output_mode_last then on_first (output_disable h) s.outputs else s.outputs);
    }
