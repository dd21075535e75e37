-- ===== src/QuickBar/Views.antt =====
-- What the quick command bar shows, of src/main/hooks/useQuickBarState.ts: the visible groups, by
-- their order, and their commands with the names of the groups.
use fluxterm.Base.{ℕ, String, List, map, keep, find, includes, leb, or_default, ◌==◌, sort_by}
use mathlib.Core.Option
use fluxterm.QuickBar.Model.{QuickCommandGroup, QuickCommandItem, QuickBarConfig, Locale}

pub record VisibleCommand : Type 0 where
  pub item : QuickCommandItem
  pub group_name : String

unfoldable pub visible_group_ids : List (QuickCommandGroup ℕ) → List String
visible_group_ids groups =
    map (λ (group : QuickCommandGroup ℕ). group.id)
      (sort_by (λ (a b : QuickCommandGroup ℕ). leb a.order b.order)
        (keep (λ (group : QuickCommandGroup ℕ). group.visible) groups))

-- A name by the group's id; ids are distinct.
abbrev group_name_of : List (QuickCommandGroup ℕ) → String → String → String
group_name_of groups default_name group_id =
    or_default
      (Option.map (λ (group : QuickCommandGroup ℕ). group.name)
        (find (λ (group : QuickCommandGroup ℕ). group.id == group_id) groups))
      default_name

unfoldable pub visible_commands : Locale → QuickBarConfig → List VisibleCommand
visible_commands locale q =
    map
      (λ (item : QuickCommandItem). record {
        item = item;
        group_name = group_name_of q.groups locale.default_group_name item.group_id;
      })
      (keep (λ (item : QuickCommandItem). includes (visible_group_ids q.groups) item.group_id)
        q.commands)
