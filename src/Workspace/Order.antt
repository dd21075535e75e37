-- ===== src/Workspace/Order.antt =====
-- Where reordering puts the sessions of a pane.
use fluxterm.Base.{
  ℕ, zero, suc, ◌+◌, ◌≤◌, ◌<◌, String, ◌==◌, ◌≡◌, refl, ap, ◌∙◌, some, List, [], ◌∷◌, arith,
  Bool-cases, Option-cases, inl, inr, eq_iff, eq_refl, length, get_elem?, index_of, remove_at,
  insert_at, eqb,
}
use fluxterm.Workspace.Reshape.{without, move_item, reorder_sessions}

index_of_found :
    (xs : List String) (x : String) (i : ℕ)
    → index_of xs x ≡ some i
    → (get_elem? xs i ≡ some x) × (i < length xs)
index_of_found [] x i h = absurd (ground arith)
index_of_found (y ∷ ys) x i h = elim (Bool-cases (y == x)) [
  | inl e ↦
      let first : 0 ≡ i = ground arith in rw (← first) (ap some ((eq_iff y x).0 e), omega arith)
  | inr e ↦ elim (Option-cases (index_of ys x)) [
    | inl d ↦ absurd (ground arith)
    | inr (k, d) ↦
        let (found, inside) = index_of_found ys x k d in
        let later : suc k ≡ i = ground arith in rw (← later) (found, omega arith)
  ]
]

length-remove_at :
    (xs : List String) (i : ℕ) → i < length xs → length (remove_at xs i) + 1 ≡ length xs
length-remove_at [] i h = absurd (omega arith)
length-remove_at (x ∷ xs) zero h = omega arith
length-remove_at (x ∷ xs) (suc i) h = omega (arith, length-remove_at xs i (omega arith))

get_elem?-insert_at :
    (xs : List String) (j : ℕ) (a : String)
    → j ≤ length xs
    → get_elem? (insert_at xs j a) j ≡ some a
get_elem?-insert_at [] zero a h = refl
get_elem?-insert_at (x ∷ xs) zero a h = refl
get_elem?-insert_at [] (suc j) a h = absurd (omega arith)
get_elem?-insert_at (x ∷ xs) (suc j) a h = get_elem?-insert_at xs j a (omega arith)

without-insert_at :
    (xs : List String) (j : ℕ) (a : String) → without a (insert_at xs j a) ≡ without a xs
without-insert_at [] zero a = rw (eq_refl a)
without-insert_at (x ∷ xs) zero a = rw (eq_refl a)
without-insert_at [] (suc j) a = rw (eq_refl a)
without-insert_at (x ∷ xs) (suc j) a = rw (without-insert_at xs j a)

without-remove_at :
    (xs : List String) (i : ℕ) (a : String)
    → get_elem? xs i ≡ some a
    → without a (remove_at xs i) ≡ without a xs
without-remove_at [] i a h = refl
without-remove_at (x ∷ xs) zero a h = ground (arith, eq_refl a)
without-remove_at (x ∷ xs) (suc i) a h = rw (without-remove_at xs i a h)

-- Where both sessions stand in the pane, the moved one takes the place of the target, and the
-- others keep their order.
pub reorder_sessions_lem :
    (ids : List String) (source target : String) (i j : ℕ)
    → index_of ids source ≡ some i
    → index_of ids target ≡ some j
    → (get_elem? (reorder_sessions ids source target) j ≡ some source)
      × (without source (reorder_sessions ids source target) ≡ without source ids)
unfolding reorder_sessions move_item
reorder_sessions_lem ids source target i j found place =
    let (at_i, i_inside) = index_of_found ids source i found in
    let (at_j, j_inside) = index_of_found ids target j place in
    elim (Bool-cases (eqb i j)) [
      | inl e ↦
          let equal : i ≡ j = ground arith in
          rw (found, place, e, reorder_sessions) (rw equal at at_i, refl)
      | inr e ↦
          rw (found, place, e, at_i, reorder_sessions, move_item)
            (
              get_elem?-insert_at (remove_at ids i) j source
                  (omega (arith, length-remove_at ids i i_inside)),
              without-insert_at (remove_at ids i) j source ∙ without-remove_at ids i source at_i,
            )
    ]
