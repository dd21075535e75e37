-- ===== src/Workspace/Colors.antt =====
-- The colour of a session group.
use fluxterm.Base.{
  ℕ, zero, suc, ◌<◌, ◌%◌, String, ◌≡◌, refl, true, some, List, [], ◌∷◌, arith, get_elem?, length,
  includes, eq_refl,
}
use fluxterm.Workspace.Groups.{
  resolve_session_group_color, session_group_palette, group_hash, utf16,
}

get_elem?-includes :
    (xs : List String) (i : ℕ)
    → i < length xs
    → (x : String) × (get_elem? xs i ≡ some x) × (includes xs x ≡ true)
get_elem?-includes [] i h = absurd (omega arith)
get_elem?-includes (x ∷ xs) zero h = (x, refl, rw (eq_refl x))
get_elem?-includes (x ∷ xs) (suc i) h =
    let (y, e, there) = get_elem?-includes xs i (omega arith) in (y, e, ground arith)

-- Every group id has a colour, and it is a colour of the palette.
pub resolve_session_group_color_total :
    (group_id : String)
    → (color : String) × (resolve_session_group_color group_id ≡ some color)
      × (includes session_group_palette color ≡ true)
unfolding resolve_session_group_color
resolve_session_group_color_total group_id =
    get_elem?-includes session_group_palette (group_hash 0 (utf16 group_id) % 8) (omega arith)
