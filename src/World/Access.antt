-- ===== src/World/Access.antt =====
-- Reading and writing the shared state.
use sg_compositor.Prelude.{
  ℕ, Bool, true, false, not, List, ◌∷◌, map, Option, none, some, ◌==◌, if◌then◌else◌, find, keep,
}
use sg_compositor.World.Types.{View, Server, Effect}

-- Two pointers to views, each NULL or not, are the same.
abbrev pub same_id : Option ℕ → Option ℕ → Bool
same_id none none = true
same_id none (some b) = false
same_id (some a) none = false
same_id (some a) (some b) = a == b

abbrev pub find_view : ℕ → List View → Option View
find_view i vs = find (λ v. v.id == i) vs

-- Writing to one view of the list.
abbrev pub update_view : ℕ → (View → View) → List View → List View
update_view i f vs = map (λ v. if v.id == i then f v else v) vs

abbrev pub log_effect : Effect → Server → Server
log_effect e s = record s { log = e ∷ s.log }

-- view_set_visible (lock.c)
unfoldable pub view_set_visible : Bool → View → View
view_set_visible visible v = if v.has_tree then record v { enabled = visible } else v

-- wl_list_remove of a view, and wl_list_insert of it at the front.
abbrev pub remove_view : ℕ → List View → List View
remove_view i vs = keep (λ v. not (v.id == i)) vs

abbrev pub move_to_front : View → List View → List View
move_to_front v vs = v ∷ remove_view v.id vs

-- A pointer to this view is cleared.
abbrev pub forget : ℕ → Option ℕ → Option ℕ
forget i f = if same_id f (some i) then none else f
