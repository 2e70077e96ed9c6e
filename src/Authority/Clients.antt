-- ===== src/Authority/Clients.antt =====
-- A locked screen and clients that come and go (lock.c).
use sg_compositor.Prelude.{
  false, arith, ◌∷◌, ◌≡◌, ◌⊎◌, sym, ℕ, not, List, [], ◌∷◌, Option, none, some, refl, if_cases,
  Option-cases, inl, inr,
}
use sg_compositor.World.{View, Server, Host, same_id}
use sg_compositor.Lock.Access.{uid_may_unlock}
use mathlib.Core.Path.{subst}
use sg_compositor.Lock.Watchers.{session_locked}
use sg_compositor.Remote.Admission.{has_authority}
use sg_compositor.Remote.Clients.{
  add_privileged, privileged_destroy, view_of, unmap_views, destroy_resources, create_privileged,
  handle_lock_connection,
}
use sg_compositor.Remote.Shadow.{handle_shadow_client_destroy, shadow_frame_show}
use sg_compositor.Remote.Session.{
  shadow_gone, destroy_client, drop_output, drop_client, give_back, remote_detach,
  handle_remote_client_destroy, remote_gone, client_destroyed, end_viewer, shadow_end,
}
use sg_compositor.Authority.Barred.{
  Invited, Bar, IsBarred, IsBarred-fewer, IsBarred-lock, view_unmap-IsBarred,
  lock_session_update-IsBarred,
}
use sg_compositor.Authority.Lock.{lock_engage-IsBarred, output_destroy-lock}

module _ {r : Bar} (h : Host) where
  unmap_views-IsBarred :
      (c : ℕ) (vs : List View) (s : Server) → IsBarred r s → IsBarred r (unmap_views h c vs s)
  unfolding unmap_views
  unmap_views-IsBarred c [] s b = b
  unmap_views-IsBarred c (v ∷ vs) s b =
      unmap_views-IsBarred c vs _
        (if_cases (IsBarred r) (view_of c v) (λ _. view_unmap-IsBarred h v.id s b) (λ _. b))

  destroy_resources-IsBarred :
      (c : ℕ) (s : Server) → IsBarred r s → IsBarred r (destroy_resources h c s)
  unfolding destroy_resources
  destroy_resources-IsBarred c s b = unmap_views-IsBarred c s.views s b

  privileged_destroy-IsBarred :
      (c : ℕ) (s : Server) → IsBarred r s → IsBarred r (privileged_destroy c s)
  unfolding privileged_destroy
  privileged_destroy-IsBarred c s b = IsBarred-fewer s _ b

  handle_shadow_client_destroy-IsBarred :
      (s : Server) → IsBarred r s → IsBarred r (handle_shadow_client_destroy h s)
  unfolding handle_shadow_client_destroy shadow_frame_show
  handle_shadow_client_destroy-IsBarred s b =
      lock_session_update-IsBarred h _ (IsBarred-lock s _ refl b)

  shadow_gone-IsBarred : (c : ℕ) (s : Server) → IsBarred r s → IsBarred r (shadow_gone h c s)
  unfolding shadow_gone
  shadow_gone-IsBarred c s b =
      if_cases (IsBarred r) (same_id s.shadow_client (some c))
        (λ _. handle_shadow_client_destroy-IsBarred s b) (λ _. b)

  destroy_client-IsBarred : (c : ℕ) (s : Server) → IsBarred r s → IsBarred r (destroy_client h c s)
  unfolding destroy_client
  destroy_client-IsBarred c s b =
      destroy_resources-IsBarred c _
        (shadow_gone-IsBarred c _ (privileged_destroy-IsBarred c _ (IsBarred-lock s _ refl b)))

  pub drop_client-IsBarred :
      (c : Option ℕ) (s : Server) → IsBarred r s → IsBarred r (drop_client h c s)
  unfolding drop_client
  drop_client-IsBarred none s b = b
  drop_client-IsBarred (some c) s b = destroy_client-IsBarred c s b

  pub drop_output-IsBarred :
      (o : Option ℕ) (s : Server) → IsBarred r s → IsBarred r (drop_output h o s)
  unfolding drop_output
  drop_output-IsBarred none s b = b
  drop_output-IsBarred (some o) s b = IsBarred-lock s _ (output_destroy-lock h o _) b

  give_back-IsBarred : (s : Server) → IsBarred r s → IsBarred r (give_back h s)
  unfolding give_back
  give_back-IsBarred s b =
      lock_engage-IsBarred h _ (lock_session_update-IsBarred h _ (IsBarred-lock s _ refl b))

  pub remote_detach-IsBarred : (s : Server) → IsBarred r s → IsBarred r (remote_detach h s)
  unfolding remote_detach
  remote_detach-IsBarred s b =
      if_cases (IsBarred r) (not s.remote) (λ _. b)
        (λ _. drop_client-IsBarred _ _ (drop_output-IsBarred _ _ (give_back-IsBarred s b)))

  remote_gone-IsBarred : (c : ℕ) (s : Server) → IsBarred r s → IsBarred r (remote_gone h c s)
  unfolding remote_gone handle_remote_client_destroy
  remote_gone-IsBarred c s b =
      if_cases (IsBarred r) (same_id s.remote_client (some c))
        (λ _. remote_detach-IsBarred _ (IsBarred-lock s _ refl b)) (λ _. b)

  -- The end of a client, the lock screen's, the viewer's or Remote Desktop's own too, leaves a
  -- locked screen locked and, where asked of, a locked session locked and the privileged clients
  -- some of the given ones.
  pub client_destroyed-IsBarred :
      (c : ℕ) (s : Server) → IsBarred r s → IsBarred r (client_destroyed h c s)
  unfolding client_destroyed
  client_destroyed-IsBarred c s b =
      destroy_resources-IsBarred c _
        (shadow_gone-IsBarred c _ (remote_gone-IsBarred c _ (privileged_destroy-IsBarred c s b)))

  pub end_viewer-IsBarred :
      (c : Option ℕ) (s : Server) → IsBarred r s → IsBarred r (end_viewer h c s)
  end_viewer-IsBarred none s b = b
  end_viewer-IsBarred (some c) s b = client_destroyed-IsBarred c _ (IsBarred-lock s _ refl b)

  pub shadow_end-IsBarred : (s : Server) → IsBarred r s → IsBarred r (shadow_end h s)
  unfolding shadow_end
  shadow_end-IsBarred s b = end_viewer-IsBarred s.shadow_client s b

  -- A connection may join only where the clients are not asked of.
  add_privileged-IsBarred :
      (c : ℕ) (s : Server) → r.guests ≡ none → IsBarred r s → IsBarred r (add_privileged c s)
  unfolding session_locked
  add_privileged-IsBarred c s all b = record {
    locked = b.locked;
    session = b.session;
    invited = subst (λ ps. Invited ps (c ∷ s.lock.privileged)) (sym all) tt;
  }

  create_privileged-IsBarred :
      (fd : ℕ) (s : Server)
      → r.guests ≡ none
      → IsBarred r s
      → IsBarred r (create_privileged h fd s).0
  unfolding create_privileged
  create_privileged-IsBarred fd s all b = elim (Option-cases (h.client_create fd)) [
    | inl failed ↦ rw (failed, create_privileged) (IsBarred-lock s _ refl b)
    | inr (c, made) ↦
        rw (made, create_privileged)
          (if_cases {A = Server × Option ℕ} (λ p. IsBarred r (p.0)) (not h.calloc_ok)
            (λ _. IsBarred-lock s _ refl b) (λ _. add_privileged-IsBarred c s all b))
  ]

  pub handle_lock_connection-IsBarred :
      (fd : ℕ) (peer : Option ℕ) (s : Server)
      → (r.guests ≡ none) ⊎ (has_authority s.lock peer ≡ false)
      → IsBarred r s
      → IsBarred r (handle_lock_connection h fd peer s)
  unfolding handle_lock_connection
  handle_lock_connection-IsBarred fd none s why b = IsBarred-lock s _ refl b
  handle_lock_connection-IsBarred fd (some u) s (inl all) b =
      if_cases (IsBarred r) (not (uid_may_unlock s.lock u)) (λ _. IsBarred-lock s _ refl b)
        (λ _. create_privileged-IsBarred fd s all b)
  handle_lock_connection-IsBarred fd (some u) s (inr stranger) b =
      if_cases (IsBarred r) (not (uid_may_unlock s.lock u)) (λ _. IsBarred-lock s _ refl b)
        (λ allowed. absurd (ground (arith, stranger)))
