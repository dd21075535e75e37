-- ===== src/Workspace/Groups.antt =====
-- The session groups of src/types.ts (`SessionGroup`) and their operations in
-- src/features/session/core/workspaceReducer.ts.
use Prim.Native.Char.{code}
use fluxterm.Base.{
  ℕ, ◌+◌, ◌-◌, ◌*◌, ◌/◌, ◌%◌, ◌^◌, String, Bool, true, false, ◌||◌, ◌==◌, Option, none, List, [],
  ◌∷◌, ◌++◌, map, if◌then◌else◌, keep, includes, get_elem?, any, ltb,
}
use fluxterm.Workspace.Tree.{replace_in_list}
use fluxterm.Workspace.Reshape.{without}

pub record SessionGroup : Type 0 where
  pub id : String
  pub name : String
  pub session_ids : List String
  pub color : Option String
  pub built_in : Bool

abbrev pub default_session_group_id : String
default_session_group_id = "00000000-0000-4000-8000-000000000101"

abbrev pub create_default_session_group : SessionGroup
create_default_session_group = record {
  id = default_session_group_id;
  name = "Default";
  session_ids = [];
  color = none;
  built_in = true;
}

-- The UTF-16 code units that `charCodeAt` reads, from the code points of the text.
abbrev pub utf16 : String → List ℕ
utf16 String.[] = []
utf16 (String.◌∷◌ c s) =
    let rest = utf16 s in
    if ltb (code c) 0x10000
    then code c ∷ rest
    else (0xd800 + (code c - 0x10000) / 0x400) ∷ (0xdc00 + (code c - 0x10000) % 0x400) ∷ rest

-- `hash = (hash * 31 + groupId.charCodeAt(index)) >>> 0` for each index
unfoldable pub group_hash : ℕ → List ℕ → ℕ
group_hash hash [] = hash
group_hash hash (unit ∷ units) = group_hash ((hash * 31 + unit) % 2 ^ 32) units

abbrev pub session_group_palette : List String
session_group_palette =
    "#38bdf8" ∷ "#22c55e" ∷ "#f59e0b" ∷ "#a78bfa" ∷ "#f472b6" ∷ "#2dd4bf" ∷ "#fb7185" ∷ "#84cc16"
    ∷ []

unfoldable pub resolve_session_group_color : String → Option String
unfolding group_hash
resolve_session_group_color group_id =
    get_elem? session_group_palette (group_hash 0 (utf16 group_id) % 8)

abbrev pub is_default : SessionGroup → Bool
is_default group = group.id == default_session_group_id

unfoldable pub ensure_default_session_group : List SessionGroup → List SessionGroup
ensure_default_session_group groups =
    if any is_default groups then groups else create_default_session_group ∷ groups

abbrev pub is_nonempty : List String → Bool
is_nonempty [] = false
is_nonempty (x ∷ xs) = true

unfoldable pub cleanup_session_groups : List SessionGroup → List SessionGroup
unfolding ensure_default_session_group
cleanup_session_groups groups =
    keep (λ group. is_default group || is_nonempty group.session_ids)
      (ensure_default_session_group groups)

-- `{ ...group, sessionIds: f(group.sessionIds) }`
abbrev pub with_sessions : (List String → List String) → SessionGroup → SessionGroup
with_sessions f group = record group { session_ids = f group.session_ids }

unfoldable pub remove_session_from_all_groups : List SessionGroup → String → List SessionGroup
unfolding ensure_default_session_group
remove_session_from_all_groups groups session_id =
    map (with_sessions (without session_id)) (ensure_default_session_group groups)

-- `group.id === groupId ? { ...group, sessionIds: group.sessionIds.concat(sessionId) } : group`
unfoldable pub concat_in_group : String → String → SessionGroup → SessionGroup
concat_in_group group_id session_id group =
    if group.id == group_id then with_sessions (λ ids. ids ++ session_id ∷ []) group else group

unfoldable pub move_session_to_group : List SessionGroup → String → String → List SessionGroup
unfolding remove_session_from_all_groups concat_in_group cleanup_session_groups
move_session_to_group groups session_id group_id =
    cleanup_session_groups
      (map (concat_in_group group_id session_id) (remove_session_from_all_groups groups session_id))

unfoldable pub append_session_to_default_group : List SessionGroup → String → List SessionGroup
unfolding remove_session_from_all_groups concat_in_group cleanup_session_groups
append_session_to_default_group groups session_id = cleanup_session_groups (
    map (concat_in_group default_session_group_id session_id)
      (remove_session_from_all_groups groups session_id))

unfoldable pub remove_session_from_groups : List SessionGroup → String → List SessionGroup
unfolding remove_session_from_all_groups cleanup_session_groups
remove_session_from_groups groups session_id =
    cleanup_session_groups (remove_session_from_all_groups groups session_id)

unfoldable pub replace_session_id_in_groups :
    List SessionGroup → String → String → List SessionGroup
unfolding ensure_default_session_group cleanup_session_groups replace_in_list
replace_session_id_in_groups groups old_id next_id =
    cleanup_session_groups
      (map (with_sessions (replace_in_list old_id next_id)) (ensure_default_session_group groups))

unfoldable pub contains_session_id_in_groups : List SessionGroup → String → Bool
contains_session_id_in_groups groups session_id =
    any (λ group. includes group.session_ids session_id) groups
