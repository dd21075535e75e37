-- ===== src/Workspace/Soundness.antt =====
-- A sound pane tree, and the operations that keep it sound.
use fluxterm.Base.{
  ℕ, ◌+◌, ◌*◌, ◌≤◌, ◌<◌, String, ◌==◌, ◌≡◌, ◌≢◌, ap, some, same, arith, Bool-cases, inl, inr,
  eq_iff, same_self, same_ne, same_eq, same_of_ne, same_le, count,
}
use fluxterm.Workspace.Tree.{
  SessionPaneNode, SplitAxis, Ratios, create_single_pane_root, append_session_to_pane,
  set_pane_active_session, replace_session_id,
}
use fluxterm.Workspace.Reshape.{
  remove_session_from_node, replace_pane_with_split, reorder_pane_sessions, update_split_ratio,
}
use fluxterm.Workspace.Counts.{
  session_count, pane_count, session_count-append_session, pane_count-append_session,
  session_count-set_active, pane_count-set_active, session_count-replace, pane_count-replace,
}
use fluxterm.Workspace.Counts.Reshape.{
  sessions_in-remove, panes_in-remove, session_count-reorder, pane_count-reorder,
  session_count-split, pane_count-split, session_count-resize, pane_count-resize,
}
use fluxterm.Workspace.Actives.{
  AllShowOwn, append-AllShowOwn, set_active-AllShowOwn, replace-AllShowOwn, remove-AllShowOwn,
  reorder-AllShowOwn, split-AllShowOwn, resize-AllShowOwn,
}

-- No session and no pane id stands twice, pane ids are not empty, and every pane shows one of its
-- own sessions.
pub record IsSound {R : Type 0} (root : SessionPaneNode R) : Type 0 where
  pub sessions_unique : (x : String) → session_count x root ≤ 1
  pub panes_unique : (p : String) → pane_count p root ≤ 1
  pub panes_named : pane_count "" root ≡ 0
  pub shown : AllShowOwn root

pub add_fresh :
    (f : String → ℕ) (x : String)
    → ((y : String) → f y ≤ 1)
    → f x ≡ 0
    → (y : String) → f y + same x y ≤ 1
add_fresh f x le fresh y = elim (Bool-cases (x == y)) [
  | inl e ↦ rw (← (eq_iff x y).0 e) (omega (arith, same_self x))
  | inr e ↦ omega (arith, same_ne x y e, le y)
]

pub single-IsSound :
    {R : Type 0} (s p : String) → p ≢ "" → IsSound (create_single_pane_root {R = R} s p)
unfolding create_single_pane_root session_count pane_count count
single-IsSound s p named = record {
  sessions_unique = λ x. omega (arith, same_le s x);
  panes_unique = λ q. omega (arith, same_le p q);
  panes_named = same_of_ne p "" named;
  shown = omega (arith, same_self s);
}

module _ {R : Type 0} (n : SessionPaneNode R) (sound : IsSound n) where
  pub append-IsSound :
      (p s : String)
      → session_count s n ≡ 0
      → 0 < pane_count p n
      → IsSound (append_session_to_pane n p s)
  append-IsSound p s fresh there =
      let one : pane_count p n ≡ 1 = omega (arith, sound.panes_unique p) in
      record {
        sessions_unique = λ x. omega (
          arith,
          session_count-append_session n p s x,
          ap (λ (t : ℕ). t * same s x) one,
          add_fresh (λ y. session_count y n) s sound.sessions_unique fresh x,
        );
        panes_unique = λ q. omega (arith, pane_count-append_session n p s q, sound.panes_unique q);
        panes_named = omega (arith, pane_count-append_session n p s "", sound.panes_named);
        shown = append-AllShowOwn n p s sound.shown;
      }

  pub set_active-IsSound : (p s : String) → IsSound (set_pane_active_session n p s)
  set_active-IsSound p s = record {
    sessions_unique = λ x. omega (arith, session_count-set_active n p s x, sound.sessions_unique x);
    panes_unique = λ q. omega (arith, pane_count-set_active n p s q, sound.panes_unique q);
    panes_named = omega (arith, pane_count-set_active n p s "", sound.panes_named);
    shown = set_active-AllShowOwn n p s sound.shown;
  }

  replace_unique :
      (o s x : String) → session_count s n ≡ 0 → session_count x (replace_session_id n o s) ≤ 1
  replace_unique o s x fresh = elim (Bool-cases (s == x)) [
    | inl e ↦
        let hit = (eq_iff s x).0 e in
        let none_yet : session_count x n ≡ 0 = rw (← hit) fresh in
        omega (
          arith,
          session_count-replace n o s x,
          ap (λ (t : ℕ). t * session_count o n) (same_eq s x e),
          sound.sessions_unique o,
        )
    | inr e ↦ omega (
      arith,
      session_count-replace n o s x,
      ap (λ (t : ℕ). t * session_count o n) (same_ne s x e),
      sound.sessions_unique x,
    )
  ]

  pub replace-IsSound : (o s : String) → session_count s n ≡ 0 → IsSound (replace_session_id n o s)
  replace-IsSound o s fresh = record {
    sessions_unique = λ x. replace_unique o s x fresh;
    panes_unique = λ q. omega (arith, pane_count-replace n o s q, sound.panes_unique q);
    panes_named = omega (arith, pane_count-replace n o s "", sound.panes_named);
    shown = replace-AllShowOwn n o s sound.shown;
  }

  pub remove-IsSound :
      (s : String) (rest : SessionPaneNode R)
      → remove_session_from_node n s ≡ some rest
      → IsSound rest
  remove-IsSound s rest e = record {
    sessions_unique =
        λ x. omega (arith, rw e at (sessions_in-remove n s x), sound.sessions_unique x);
    panes_unique = λ q. omega (arith, rw e at (panes_in-remove n s q), sound.panes_unique q);
    panes_named = omega (arith, rw e at (panes_in-remove n s ""), sound.panes_named);
    shown = rw e at (remove-AllShowOwn n s sound.shown);
  }

  pub reorder-IsSound : (p s t : String) → IsSound (reorder_pane_sessions n p s t)
  reorder-IsSound p s t = record {
    sessions_unique = λ x. omega (arith, session_count-reorder n p s t x, sound.sessions_unique x);
    panes_unique = λ q. omega (arith, pane_count-reorder n p s t q, sound.panes_unique q);
    panes_named = omega (arith, pane_count-reorder n p s t "", sound.panes_named);
    shown = reorder-AllShowOwn n p s t sound.shown;
  }

  pub split-IsSound :
      (ratios : Ratios R) (p q s : String) (axis : SplitAxis)
      → 0 < pane_count p n
      → pane_count q n ≡ 0
      → q ≢ ""
      → session_count s n ≡ 0
      → IsSound (replace_pane_with_split ratios n p q s axis)
  split-IsSound ratios p q s axis there free named fresh =
      let one : pane_count p n ≡ 1 = omega (arith, sound.panes_unique p) in
      record {
        sessions_unique = λ x. omega (
          arith,
          session_count-split ratios n p q s axis x,
          ap (λ (t : ℕ). t * same s x) one,
          add_fresh (λ y. session_count y n) s sound.sessions_unique fresh x,
        );
        panes_unique = λ x. omega (
          arith,
          pane_count-split ratios n p q s axis x,
          ap (λ (t : ℕ). t * same q x) one,
          add_fresh (λ y. pane_count y n) q sound.panes_unique free x,
        );
        panes_named = omega (
          arith,
          pane_count-split ratios n p q s axis "",
          ap (λ (t : ℕ). t * same q "") one,
          sound.panes_named,
          same_of_ne q "" named,
        );
        shown = split-AllShowOwn ratios n p q s axis sound.shown;
      }

  pub resize-IsSound :
      (ratios : Ratios R) (p : String) (r : R) → IsSound (update_split_ratio ratios n p r)
  unfolding update_split_ratio
  resize-IsSound ratios p r = record {
    sessions_unique =
        λ x. omega (arith, session_count-resize ratios n p r x, sound.sessions_unique x);
    panes_unique = λ q. omega (arith, pane_count-resize ratios n p r q, sound.panes_unique q);
    panes_named = omega (arith, pane_count-resize ratios n p r "", sound.panes_named);
    shown = resize-AllShowOwn ratios n p r sound.shown;
  }
