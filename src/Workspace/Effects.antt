-- ===== src/Workspace/Effects.antt =====
-- What attaching, activating and detaching a session do to a well-formed workspace.
use fluxterm.Base.{
  ℕ, ◌+◌, ◌*◌, ◌≤◌, ◌<◌, String, ◌==◌, ◌≡◌, ◌≢◌, refl, ap, ◌∙◌, Option, none, some, List, same,
  count, arith, Bool-cases, Option-cases, inl, inr, eq_iff, eq_refl, same_self, same_ne, includes,
  count-append, if◌then◌else◌,
}
use fluxterm.Workspace.Tree.{
  SessionPaneNode, leaf, split, Leaf, leaf_session, find_leaf_by_pane_id, find_leaf_by_session_id,
  set_pane_active_session, collect_node_session_ids,
}
use fluxterm.Workspace.Groups.{SessionGroup, remove_session_from_groups}
use fluxterm.Workspace.Reshape.{remove_session_from_node}
use fluxterm.Workspace.Counts.{session_count, pane_count, sessions_in, pane_count-set_active}
use fluxterm.Workspace.Counts.Reshape.{sessions_in-remove}
use fluxterm.Workspace.Grouping.{grouped}
use fluxterm.Workspace.Grouping.Moves.{grouped-remove}
use fluxterm.Workspace.Finding.{find_by_pane_id, find_by_session_id, find_by_session_id_total}
use fluxterm.Workspace.Soundness.{IsSound}
use fluxterm.Workspace.Reducer.{
  SessionWorkspaceState, truthy, create_empty_workspace_state, collect_workspace_session_ids,
  get_active_session_id, activate, detach,
}
use fluxterm.Workspace.Invariant.{IsWellFormed, state}

truthy-some : (p : String) → p ≢ "" → truthy (some p) ≡ some p
unfolding truthy
truthy-some p h = ground (arith, eq_iff p "", h)

-- Removal takes away one text's occurrences and leaves the others'.
removed :
    (before after : String → ℕ) (x : String)
    → ((y : String) → after y + same x y * before x ≡ before y)
    → (y : String) → after y ≡ (if x == y then 0 else before y)
removed before after x law y = elim (Bool-cases (x == y)) [
  | inl e ↦
      let hit = (eq_iff x y).0 e in
      rw e (rw (← hit) (omega (arith, law x, ap (λ (t : ℕ). t * before x) (same_self x))))
  | inr e ↦ rw e (omega (arith, law y, ap (λ (t : ℕ). t * before x) (same_ne x y e)))
]

module _ {R : Type 0} where
  count-collect :
      (n : SessionPaneNode R) (x : String)
      → count x (collect_node_session_ids n) ≡ session_count x n
  unfolding collect_node_session_ids session_count
  count-collect (leaf l) x = refl
  count-collect (split axis ratio first second) x = omega (
    arith,
    count-append x (collect_node_session_ids first) (collect_node_session_ids second),
    count-collect first x,
    count-collect second x,
  )

  collect_state :
      (root : Option (SessionPaneNode R)) (active : Option String) (gs : List SessionGroup)
      (x : String)
      → IsWellFormed (state root active gs)
      → (count x (collect_workspace_session_ids (state root active gs)) ≡ grouped x gs)
        × (count x (collect_workspace_session_ids (state root active gs)) ≤ 1)
  unfolding collect_workspace_session_ids count
  collect_state none active gs x w = omega (arith, w.filed x)
  collect_state (some root) none gs x w = absurd w.tree
  collect_state (some root) (some a) gs x w =
      omega (arith, w.filed x, count-collect root x, w.tree.0.sessions_unique x)

  -- In a well-formed workspace the list of all session ids names every session as often as the
  -- groups do, and no session twice.
  pub collect-grouped :
      (s : SessionWorkspaceState R) (x : String)
      → IsWellFormed s
      → (count x (collect_workspace_session_ids s) ≡ grouped x s.groups)
        × (count x (collect_workspace_session_ids s) ≤ 1)
  collect-grouped s x w = collect_state s.root s.active_pane_id s.groups x w

  pub not_there :
      (n : SessionPaneNode R) (p : String) → pane_count p n ≡ 0 → find_leaf_by_pane_id n p ≡ none
  not_there n p h = elim (Option-cases (find_leaf_by_pane_id n p)) [
    | inl e ↦ e
    | inr (l, e) ↦ absurd (omega (arith, (find_by_pane_id n p l e).1))
  ]

  pane_named : (n : SessionPaneNode R) (p : String) → IsSound n → 0 < pane_count p n → p ≢ ""
  pane_named n p sound there e = absurd (omega (arith, rw e at there, sound.panes_named))

  -- The pane of a session, once the session is made its active one.
  activated :
      (n : SessionPaneNode R) (x : String) (l : Leaf)
      → ((p : String) → pane_count p n ≤ 1)
      → find_leaf_by_session_id n x ≡ some l
      → find_leaf_by_pane_id (set_pane_active_session n l.pane_id x) l.pane_id
        ≡ some (record l { active_session_id = some x })
  unfolding find_leaf_by_session_id find_leaf_by_pane_id set_pane_active_session pane_count
  activated (leaf l') x l unique found = elim (Bool-cases (includes l'.session_ids x)) [
    | inl e ↦
        let same_leaf : l' ≡ l = ground arith in
        rw (← same_leaf) (rw (eq_refl l'.pane_id, e) (rw (eq_refl l'.pane_id)))
    | inr e ↦ absurd (ground arith)
  ]
  activated (split axis ratio first second) x l unique found =
      elim (Option-cases (find_leaf_by_session_id first x)) [
        | inr (m, e) ↦
            let same_leaf : m ≡ l = ground arith in
            rw (activated first x l (λ p. omega (arith, unique p)) (rw (← same_leaf) e))
        | inl e ↦
            let later : find_leaf_by_session_id second x ≡ some l = ground arith in
            rw (
              not_there (set_pane_active_session first l.pane_id x) l.pane_id (
                  omega (
                    arith,
                    pane_count-set_active first l.pane_id x l.pane_id,
                    (find_by_session_id second x l later).0,
                    unique l.pane_id,
                  )),
              activated second x l (λ p. omega (arith, unique p)) later,
            )
      ]

  activate_found :
      (root : SessionPaneNode R) (active : Option String) (gs : List SessionGroup) (x : String)
      (l : Leaf)
      → find_leaf_by_session_id root x ≡ some l
      → activate (state (some root) active gs) x
        ≡ state (some (set_pane_active_session root l.pane_id x)) (some l.pane_id) gs
  unfolding activate
  activate_found root active gs x l found = rw (found, activate)

  shown_session :
      (root : SessionPaneNode R) (p : String) (gs : List SessionGroup) (l : Leaf)
      → p ≢ ""
      → find_leaf_by_pane_id root p ≡ some l
      → get_active_session_id (state (some root) (some p) gs) ≡ leaf_session (some l)
  unfolding get_active_session_id
  shown_session root p gs l named found = rw (truthy-some p named, found, get_active_session_id)

  activated_session :
      (root : Option (SessionPaneNode R)) (active : Option String) (gs : List SessionGroup)
      (x : String)
      → IsWellFormed (state root active gs)
      → 0 < sessions_in x root
      → get_active_session_id (activate (state root active gs) x) ≡ some x
  activated_session none active gs x w here = absurd (omega arith)
  activated_session (some root) none gs x w here = absurd w.tree
  activated_session (some root) (some a) gs x w here =
      let (l, found) = find_by_session_id_total root x here in
      let sound = w.tree.0 in
      rw (activate_found root (some a) gs x l found) (
        shown_session (set_pane_active_session root l.pane_id x) l.pane_id gs
          (record l { active_session_id = some x })
          (pane_named root l.pane_id sound (find_by_session_id root x l found).0)
          (activated root x l sound.panes_unique found))

  -- In a well-formed workspace, a session of the tree that is activated is the active session.
  pub get_active_session_id-activate :
      (s : SessionWorkspaceState R) (x : String)
      → IsWellFormed s
      → 0 < sessions_in x s.root
      → get_active_session_id (activate s x) ≡ some x
  get_active_session_id-activate s x w here =
      activated_session s.root s.active_pane_id s.groups x w here

  pub detach_root :
      (root : SessionPaneNode R) (active : Option String) (gs : List SessionGroup) (x : String)
      → ((detach (state (some root) active gs) x).root ≡ remove_session_from_node root x)
        × ((detach (state (some root) active gs) x).groups ≡ remove_session_from_groups gs x)
  unfolding detach create_empty_workspace_state
  detach_root root active gs x = elim (Option-cases (remove_session_from_node root x)) [
    | inl e ↦ rw (e, detach) (refl, refl)
    | inr (rest, e) ↦ rw (e, detach) (refl, refl)
  ]

  pub detached_counts :
      (root : Option (SessionPaneNode R)) (active : Option String) (gs : List SessionGroup)
      (x y : String)
      → IsWellFormed (state root active gs)
      → (sessions_in y (detach (state root active gs) x).root
          ≡ (if x == y then 0 else sessions_in y root))
        × (grouped y (detach (state root active gs) x).groups
            ≡ (if x == y then 0 else grouped y gs))
  unfolding detach
  detached_counts none active gs x y w = ground (arith, w.filed y)
  detached_counts (some root) none gs x y w = absurd w.tree
  detached_counts (some root) (some a) gs x y w =
      let (same_root, same_groups) = detach_root root (some a) gs x in
      (
        ap (sessions_in y) same_root
            ∙ removed (λ t. session_count t root)
                (λ t. sessions_in t (remove_session_from_node root x)) x (sessions_in-remove root x)
                y,
        ap (grouped y) same_groups
            ∙ removed (λ t. grouped t gs) (λ t. grouped t (remove_session_from_groups gs x)) x
                (grouped-remove gs w.groups x) y,
      )
