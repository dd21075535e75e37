-- ===== src/Reconnect/Lifecycle.antt =====
-- src/features/session/core/lifecycle.ts: a session's connection is replaced by another.
-- `replaceWorkspaceSession` is an argument.
use fluxterm.Base.{
  includes-append, ap, ◌∙◌, String, false, not, ◌||◌, ◌==◌, ◌≡◌, refl, Option, none, some, List, [],
  ◌∷◌, ◌++◌, map, keep, includes, or_else, if◌then◌else◌, arith, eq_iff, eq_refl, Bool-cases,
  Option-cases, inl, inr,
}
use fluxterm.Base.Dict.{Dict, get, put, delete, get-put, get-put_self, get-delete_self, get-delete}
use fluxterm.Reconnect.Connections.{SessionStateUi, Session, Connections}
use fluxterm.Reconnect.Runtime.{clear_reconnect_state_by_id}
use fluxterm.Reconnect.Retries.{IsQuiet, clear-IsQuiet}

-- `if (meta) next[nextSession.sessionId] = meta`, after the old entry is gone
unfoldable pub move_meta {ℓ} : {M : Type ℓ} → Dict M → String → String → Option M → Dict M
move_meta entries old_id next_id next_meta = elim (or_else next_meta (get entries old_id)) [
  | none ↦ delete entries old_id
  | some entry ↦ put (delete entries old_id) next_id entry
]

-- `Set.add` after `Set.delete`
unfoldable pub move_local : List String → String → String → List String
move_local ids old_id next_id =
    let rest = keep (λ item. not (item == old_id)) ids in
    if includes rest next_id then rest else rest ++ next_id ∷ []

includes-keep_self :
    (xs : List String) (x : String) → includes (keep (λ item. not (item == x)) xs) x ≡ false
includes-keep_self [] x = refl
includes-keep_self (y ∷ xs) x = ground (arith, includes-keep_self xs x)

includes-keep_ne :
    (xs : List String) (x y : String)
    → (y == x) ≡ false
    → includes (keep (λ item. not (item == x)) xs) y ≡ includes xs y
includes-keep_ne [] x y h = refl
includes-keep_ne (z ∷ xs) x y h =
    ground (arith, includes-keep_ne xs x y, eq_iff z x, eq_iff z y, eq_iff y x)

-- The local sessions once the old id has given way to the next.
abbrev next_local : List String → String → String → List String
next_local ids old_id next_id = if includes ids old_id then move_local ids old_id next_id else ids

next_local_old :
    (ids : List String) (old_id next_id : String)
    → (next_id == old_id) ≡ false
    → includes (next_local ids old_id next_id) old_id ≡ false
unfolding move_local
next_local_old ids old_id next_id h =
    let rest = keep (λ item. not (item == old_id)) ids in
    ground (arith, includes-keep_self ids old_id, includes-append rest (next_id ∷ []) old_id)

next_local_next :
    (ids : List String) (old_id next_id : String)
    → (next_id == old_id) ≡ false
    → includes (next_local ids old_id next_id) next_id
      ≡ (includes ids next_id || includes ids old_id)
unfolding move_local
next_local_next ids old_id next_id h =
    let rest = keep (λ item. not (item == old_id)) ids in
    ground (
      arith,
      includes-keep_ne ids old_id next_id h,
      includes-append rest (next_id ∷ []) next_id,
      eq_refl next_id,
    )

-- The sessions' ids, in the order of the list.
abbrev pub ids_of : {D : Type 0} → List (Session D) → List String
ids_of {D = D} sessions = map (λ (item : Session D). item.session_id) sessions

ids_of-replaced :
    {D : Type 0} (sessions : List (Session D)) (old_id : String) (next : Session D)
    → ids_of (map (λ (item : Session D). if item.session_id == old_id then next else item) sessions)
      ≡ map (λ id. if id == old_id then next.session_id else id) (ids_of sessions)
ids_of-replaced {D = D} [] old_id next = refl
ids_of-replaced {D = D} (item ∷ sessions) old_id next =
    let rest = ids_of-replaced sessions old_id next in
    elim (Bool-cases (item.session_id == old_id)) [
      | inl e ↦ rw e (ap (λ ids. next.session_id ∷ ids) rest)
      | inr e ↦ rw e (ap (λ ids. item.session_id ∷ ids) rest)
    ]

moved_old :
    {M : Type 0} (entries : Dict M) (old_id next_id : String) (next_meta : Option M)
    → (next_id == old_id) ≡ false
    → get (move_meta entries old_id next_id next_meta) old_id ≡ none
unfolding move_meta
moved_old entries old_id next_id next_meta other =
    elim (Option-cases (or_else next_meta (get entries old_id))) [
      | inl e ↦ rw (e, move_meta) (get-delete_self entries old_id)
      | inr (entry, e) ↦
          rw (e, move_meta)
            (get-put (delete entries old_id) next_id old_id entry
              ∙ rw other (get-delete_self entries old_id))
    ]

moved_next :
    {M : Type 0} (entries : Dict M) (old_id next_id : String) (next_meta : Option M)
    → (next_id == old_id) ≡ false
    → get (move_meta entries old_id next_id next_meta) next_id
      ≡ or_else (or_else next_meta (get entries old_id)) (get entries next_id)
unfolding move_meta
moved_next entries old_id next_id next_meta other =
    let apart : (old_id == next_id) ≡ false =
      ground (arith, other, eq_iff old_id next_id, eq_iff next_id old_id) in
    elim (Option-cases (or_else next_meta (get entries old_id))) [
      | inl e ↦ rw (e, move_meta) (get-delete entries old_id next_id ∙ rw apart refl)
      | inr (entry, e) ↦ rw (e, move_meta) (get-put_self (delete entries old_id) next_id entry)
    ]

module _ {D M W : Type 0} where
  clear-local_session_ids :
      (c : Connections D M W) (s : String)
      → (clear_reconnect_state_by_id c s).local_session_ids ≡ c.local_session_ids
  unfolding clear_reconnect_state_by_id
  clear-local_session_ids c s = refl

  unfoldable pub replace_session_connection_state :
      (W → String → String → W)
      → Connections D M W
      → String
      → Session D
      → SessionStateUi
      → Option M
      → Connections D M W
  replace_session_connection_state replace_workspace c old_id next_session next_state next_meta =
      let cleared = clear_reconnect_state_by_id c old_id in
      let next_id = next_session.session_id in
      let is_local = includes cleared.local_session_ids old_id in
      record cleared {
        sessions =
            map (λ (item : Session D). if item.session_id == old_id then next_session else item)
              cleared.sessions;
        session_states = put (delete cleared.session_states old_id) next_id next_state;
        session_reasons = delete cleared.session_reasons old_id;
        reconnect_info = delete cleared.reconnect_info old_id;
        local_session_ids =
            (if is_local
              then move_local cleared.local_session_ids old_id next_id
              else cleared.local_session_ids);
        local_session_meta =
            (if is_local
              then move_meta cleared.local_session_meta old_id next_id next_meta
              else cleared.local_session_meta);
        close_handled = delete cleared.close_handled old_id;
        workspace = replace_workspace cleared.workspace old_id next_id;
      }

  -- Nothing is known of a session.
  pub record IsForgotten (c : Connections D M W) (s : String) : Type 0 where
    pub quiet : IsQuiet c s
    pub no_state : get c.session_states s ≡ none
    pub no_reason : get c.session_reasons s ≡ none
    pub not_handled : get c.close_handled s ≡ none
    pub not_local : includes c.local_session_ids s ≡ false

  pub clear-kept :
      (c : Connections D M W) (s : String)
      → ((clear_reconnect_state_by_id c s).sessions ≡ c.sessions)
        × ((clear_reconnect_state_by_id c s).local_session_meta ≡ c.local_session_meta)
        × ((clear_reconnect_state_by_id c s).workspace ≡ c.workspace)
  unfolding clear_reconnect_state_by_id
  clear-kept c s = (refl, refl, refl)

  -- What becomes of the metadata of the old and of the next session: those of a local session
  -- move, where none are given.
  pub record MovesMeta (c after : Connections D M W) (old_id next_id : String)
      (next_meta : Option M) : Type 0 where
    pub from_old :
        get after.local_session_meta old_id
        ≡ (if includes c.local_session_ids old_id then none else get c.local_session_meta old_id)
    pub to_next : get after.local_session_meta next_id ≡ (
        if includes c.local_session_ids old_id
        then or_else
            (or_else next_meta (get c.local_session_meta old_id))
            (get c.local_session_meta next_id)
        else get c.local_session_meta next_id)

  meta_moves :
      (replace_workspace : W → String → String → W) (c : Connections D M W) (old_id : String)
      (next : Session D) (next_state : SessionStateUi) (next_meta : Option M)
      → (next.session_id == old_id) ≡ false
      → MovesMeta c
          (replace_session_connection_state replace_workspace c old_id next next_state next_meta)
          old_id
          next.session_id
          next_meta
  unfolding replace_session_connection_state clear_reconnect_state_by_id
  meta_moves replace_workspace c old_id next next_state next_meta other =
      let entries = c.local_session_meta in
      elim (Bool-cases (includes c.local_session_ids old_id)) [
        | inl e ↦ record {
          from_old =
              rw (e, replace_session_connection_state)
                (moved_old entries old_id next.session_id next_meta other);
          to_next =
              rw (e, replace_session_connection_state)
                (moved_next entries old_id next.session_id next_meta other);
        }
        | inr e ↦ record {
          from_old = rw (e, replace_session_connection_state) refl;
          to_next = rw (e, replace_session_connection_state) refl;
        }
      ]

  -- Once its connection is replaced by that of a session with another id, the new session's id
  -- stands in the list where the old one stood, and every other id where it was; no retry, no state,
  -- no reason and no handled end of the old session is kept, and it is not among the local ones.
  -- The new one has the given state, and is local exactly where it or the old one was; a local
  -- session's metadata move to it, unless others are given; and the workspace is the one that the
  -- replacement of the ids makes.
  pub replace_session_connection_state_lem :
      (replace_workspace : W → String → String → W) (c : Connections D M W) (old_id : String)
      (next : Session D) (next_state : SessionStateUi) (next_meta : Option M)
      → (next.session_id == old_id) ≡ false
      → let after =
          replace_session_connection_state replace_workspace c old_id next next_state next_meta in
        IsForgotten after old_id
        × (ids_of after.sessions
            ≡ map (λ id. if id == old_id then next.session_id else id) (ids_of c.sessions))
        × (get after.session_states next.session_id ≡ some next_state)
        × (includes after.local_session_ids next.session_id
            ≡ (includes c.local_session_ids next.session_id || includes c.local_session_ids old_id))
        × MovesMeta c after old_id next.session_id next_meta
        × (after.workspace ≡ replace_workspace c.workspace old_id next.session_id)
  unfolding replace_session_connection_state
  replace_session_connection_state_lem replace_workspace c old_id next next_state next_meta other =
      let quiet = clear-IsQuiet c old_id in
      let cleared = clear_reconnect_state_by_id c old_id in
      (
        record {
          quiet = record {
            no_timer = quiet.no_timer;
            no_attempts = quiet.no_attempts;
            no_info = get-delete_self cleared.reconnect_info old_id;
          };
          no_state = rw (get-put, other) (get-delete_self cleared.session_states old_id);
          no_reason = get-delete_self cleared.session_reasons old_id;
          not_handled = get-delete_self cleared.close_handled old_id;
          not_local = next_local_old cleared.local_session_ids old_id next.session_id other;
        },
        ap
              (λ sessions. ids_of (
                map (λ (item : Session D). if item.session_id == old_id then next else item)
                  sessions))
              (clear-kept c old_id).0
            ∙ ids_of-replaced c.sessions old_id next,
        get-put_self (delete cleared.session_states old_id) next.session_id next_state,
        next_local_next cleared.local_session_ids old_id next.session_id other
            ∙ ap (λ ids. includes ids next.session_id || includes ids old_id)
                (clear-local_session_ids c old_id),
        meta_moves replace_workspace c old_id next next_state next_meta other,
        ap (λ w. replace_workspace w old_id next.session_id) (clear-kept c old_id).2,
      )
