-- ===== src/Workspace/Tests.antt =====
-- Runs of the workspace on small inputs, and each theorem at one of them.
use Prim.Native.Nat.{min, max}
use fluxterm.Base.{
  includes, String, true, ℕ, ◌<◌, ◌≤◌, ◌≡◌, refl, some, [], ◌∷◌, arith, count, get_elem?, same,
}
use fluxterm.Workspace.Tree.{
  SessionPaneNode, leaf, split, vertical, Ratios, create_single_pane_root, append_session_to_pane,
}
use fluxterm.Workspace.Reshape.{
  without, reorder_sessions, clamp_ratio, update_split_ratio, remove_session_from_node,
}
use fluxterm.Workspace.Groups.{append_session_to_default_group}
use fluxterm.Workspace.Reducer.{
  SessionWorkspaceState, attach_session, create_empty_workspace_state, attach, split_at, activate,
  detach, session_workspace_reducer, get_active_session_id, collect_workspace_session_ids,
}
use fluxterm.Workspace.Counts.{session_count, pane_count, sessions_in}
use fluxterm.Workspace.Grouping.{grouped}
use fluxterm.Workspace.Invariant.{IsWellFormed}
use fluxterm.Workspace.Invariant.Reduction.{
  reducer-IsWellFormed, Reachable, start, step, Reachable-IsWellFormed,
}
use fluxterm.Workspace.Effects.{collect-grouped, get_active_session_id-activate}
use fluxterm.Workspace.Detached.{rows_in, rows_without, groups_without, detach_lem}
use fluxterm.Workspace.Groups.{session_group_palette, resolve_session_group_color}
use fluxterm.Workspace.Colors.{resolve_session_group_color_total}
use fluxterm.Workspace.Ratio.{set_enclosing, update_split_ratio_lem}
use fluxterm.Workspace.Order.{reorder_sessions_lem}

-- Ratios in hundredths.
abbrev hundredths : Ratios ℕ
hundredths = record { half = 50; lowest = 20; highest = 80; math_min = min; math_max = max }

abbrev same_case : String → String
same_case s = s

abbrev one_pane : SessionPaneNode ℕ
one_pane =
    leaf (record { pane_id = "p"; session_ids = "a" ∷ "b" ∷ []; active_session_id = some "b" })

abbrev two_panes : SessionPaneNode ℕ
two_panes =
    split vertical 50 one_pane
      (leaf (record { pane_id = "q"; session_ids = "c" ∷ []; active_session_id = some "c" }))

abbrev one_session : SessionWorkspaceState ℕ
one_session =
    session_workspace_reducer hundredths same_case create_empty_workspace_state
      (attach_session "a" (some "p"))

workspace_runs : Unit {0}
unfolding session_workspace_reducer attach split_at create_empty_workspace_state
    create_single_pane_root append_session_to_default_group session_count pane_count grouped count
    same append_session_to_pane
workspace_runs = tt

one_session_reached : Reachable hundredths same_case one_session
unfolding create_empty_workspace_state
one_session_reached = step start (attach_session "a" (some "p")) (refl, tt) refl

one_session-IsWellFormed : IsWellFormed one_session
one_session-IsWellFormed = Reachable-IsWellFormed hundredths same_case one_session_reached

Reachable-IsWellFormed_example : IsWellFormed one_session
Reachable-IsWellFormed_example = Reachable-IsWellFormed hundredths same_case one_session_reached

split_allowed :
    (sessions_in "b" one_session.root ≡ 0)
    × (0 < pane_count "p" (create_single_pane_root {R = ℕ} "a" "p"))
unfolding workspace_runs
split_allowed = (refl, omega arith)

reducer-IsWellFormed_example :
    IsWellFormed
      (session_workspace_reducer hundredths same_case one_session (attach_session "b" (some "p")))
unfolding workspace_runs
reducer-IsWellFormed_example =
    reducer-IsWellFormed hundredths same_case one_session (attach_session "b" (some "p"))
      one_session-IsWellFormed (refl, omega arith)

collect-grouped_example :
    (count "a" (collect_workspace_session_ids one_session) ≡ grouped "a" one_session.groups)
    × (count "a" (collect_workspace_session_ids one_session) ≤ 1)
collect-grouped_example = collect-grouped one_session "a" one_session-IsWellFormed

get_active_session_id-activate_example : get_active_session_id (activate one_session "a") ≡ some "a"
unfolding workspace_runs
get_active_session_id-activate_example =
    get_active_session_id-activate one_session "a" one_session-IsWellFormed (omega arith)

detach_lem_example :
    (rows_in (detach one_session "a").root ≡ rows_without "a" (rows_in one_session.root))
    × ((detach one_session "a").groups ≡ groups_without "a" one_session.groups)
    × (sessions_in "a" (detach one_session "a").root ≡ 0)
    × (grouped "a" (detach one_session "a").groups ≡ 0)
detach_lem_example = detach_lem one_session "a" "a" one_session-IsWellFormed

update_split_ratio_lem_example :
    update_split_ratio hundredths two_panes "q" 95
    ≡ set_enclosing two_panes "q" (clamp_ratio hundredths 95)
unfolding pane_count same
update_split_ratio_lem_example = update_split_ratio_lem hundredths two_panes "q" 95 (omega arith)

reorder_sessions_lem_example :
    (get_elem? (reorder_sessions ("a" ∷ "b" ∷ "c" ∷ []) "a" "c") 2 ≡ some "a")
    × (without "a" (reorder_sessions ("a" ∷ "b" ∷ "c" ∷ []) "a" "c") ≡ "b" ∷ "c" ∷ [])
reorder_sessions_lem_example = reorder_sessions_lem ("a" ∷ "b" ∷ "c" ∷ []) "a" "c" 0 2 refl refl

reorder_runs : reorder_sessions ("a" ∷ "b" ∷ "c" ∷ []) "a" "c" ≡ "b" ∷ "c" ∷ "a" ∷ []
unfolding reorder_sessions
reorder_runs = refl

removal_runs :
    (remove_session_from_node two_panes "c" ≡ some one_pane)
    × (remove_session_from_node one_pane "b"
        ≡ some
            (leaf (record { pane_id = "p"; session_ids = "a" ∷ []; active_session_id = some "a" })))
unfolding remove_session_from_node
removal_runs = (refl, refl)

color_of_group :
    (color : String) × (resolve_session_group_color "group-1" ≡ some color)
    × (includes session_group_palette color ≡ true)
color_of_group = resolve_session_group_color_total "group-1"
