-- ===== src/Sessions/Consistency.antt =====
-- The invariant of the session hook (src/hooks/useSessionStateCore.ts), that its workspace is well
-- formed and holds the sessions of its list, and the changes of its parts that keep it.
use fluxterm.Base.{
  ℕ, ◌*◌, ◌<◌, String, ◌==◌, ◌≡◌, ◌≢◌, refl, ap, some, List, [], ◌∷◌, ◌++◌, map, keep, not, same,
  arith, if◌then◌else◌,
}
use fluxterm.Reconnect.Connections.{Session}
use fluxterm.Workspace.Tree.{SplitAxis, Ratios}
use fluxterm.Workspace.Counts.{sessions_in, panes_in}
use fluxterm.Workspace.Reducer.{
  SessionWorkspaceState, create_empty_workspace_state, attach, replace, detach, split_at,
}
use fluxterm.Workspace.Detached.{detach_lem}
use fluxterm.Workspace.Invariant.{IsWellFormed, IsTarget, empty-IsWellFormed}
use fluxterm.Workspace.Invariant.Attaching.{attach-IsWellFormed, split-IsWellFormed}
use fluxterm.Workspace.Invariant.Moving.{replace-IsWellFormed}
use fluxterm.Workspace.Invariant.Detaching.{detach-IsWellFormed}
use fluxterm.Sessions.Agreement.{
  listed, listed-concat, listed-keep, listed-replace, attach_counts, split_counts, replace_counts,
}

module _ {D R : Type 0} where
  pub record IsConsistent (sessions : List (Session D)) (workspace : SessionWorkspaceState R)
      : Type 0 where
    pub well_formed : IsWellFormed workspace
    pub agrees : (y : String) → sessions_in y workspace.root ≡ listed y sessions

  pub add-IsConsistent :
      (ss : List (Session D)) (w : SessionWorkspaceState R) (s : Session D) (p : String)
      → IsConsistent ss w
      → listed s.session_id ss ≡ 0
      → p ≢ ""
      → IsTarget w.root (some p)
      → IsConsistent (ss ++ s ∷ []) (attach w s.session_id (some p))
  add-IsConsistent ss w s p ok fresh named target = record {
    well_formed =
        attach-IsWellFormed w.root w.active_pane_id w.groups s.session_id (some p) ok.well_formed
          (omega (arith, ok.agrees s.session_id)) target;
    agrees = λ y. omega (
      arith,
      ok.agrees y,
      listed-concat ss s y,
      attach_counts w.root w.active_pane_id w.groups s.session_id p y ok.well_formed named target,
    );
  }

  pub split-IsConsistent :
      (ratios : Ratios R) (ss : List (Session D)) (w : SessionWorkspaceState R) (s : Session D)
      (p q : String) (axis : SplitAxis)
      → IsConsistent ss w
      → listed s.session_id ss ≡ 0
      → 0 < panes_in p w.root
      → panes_in q w.root ≡ 0
      → q ≢ ""
      → IsConsistent (ss ++ s ∷ []) (split_at ratios w p q s.session_id axis)
  split-IsConsistent ratios ss w s p q axis ok fresh there free named = record {
    well_formed =
        split-IsWellFormed ratios w.root w.active_pane_id w.groups p q s.session_id axis
          ok.well_formed (omega (arith, ok.agrees s.session_id)) there free named;
    agrees = λ y. omega (
      arith,
      ok.agrees y,
      listed-concat ss s y,
      split_counts ratios w.root w.active_pane_id w.groups p q s.session_id axis y ok.well_formed
          there,
    );
  }

  pub forget-IsConsistent :
      (ss : List (Session D)) (w : SessionWorkspaceState R) (x : String)
      → IsConsistent ss w
      → IsConsistent (keep (λ (item : Session D). not (item.session_id == x)) ss) (detach w x)
  forget-IsConsistent ss w x ok = record {
    well_formed = detach-IsWellFormed w.root w.active_pane_id w.groups x ok.well_formed;
    agrees =
        λ y. ground (arith, ok.agrees y, listed-keep ss x y, (detach_lem w x y ok.well_formed).2);
  }

  pub replace-IsConsistent :
      (ss : List (Session D)) (w : SessionWorkspaceState R) (o : String) (n : Session D)
      → IsConsistent ss w
      → listed n.session_id ss ≡ 0
      → IsConsistent
          (map (λ (item : Session D). if item.session_id == o then n else item) ss)
          (replace w o n.session_id)
  replace-IsConsistent ss w o n ok fresh = record {
    well_formed =
        replace-IsWellFormed w.root w.active_pane_id w.groups o n.session_id ok.well_formed
          (omega (arith, ok.agrees n.session_id));
    agrees = λ y. omega (
      arith,
      ok.agrees y,
      ap (λ (t : ℕ). same o y * t) (ok.agrees o),
      ap (λ (t : ℕ). same n.session_id y * t) (ok.agrees o),
      listed-replace ss o n y,
      replace_counts w.root w.active_pane_id w.groups o n.session_id y,
    );
  }

  pub empty-IsConsistent : IsConsistent [] create_empty_workspace_state
  unfolding create_empty_workspace_state listed
  empty-IsConsistent = record { well_formed = empty-IsWellFormed; agrees = λ y. refl }
