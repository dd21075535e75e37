-- ===== src/Sessions/DeskEffects.antt =====
-- What the steps of the desk do to the sessions the hook lists (src/hooks/useSessionStateCore.ts).
use fluxterm.Base.{
  or_default, ℕ, ◌+◌, ◌*◌, String, false, ◌==◌, ◌≡◌, ◌≢◌, refl, ap, Option, none, some, ◌∙◌, [],
  ◌∷◌, ◌++◌, same, arith, eq_iff, Bool-cases, Option-cases, inl, inr, same_ne, same_eq,
  if◌then◌else◌,
}
use fluxterm.Base.Dict.{get}
use fluxterm.Reconnect.Policy.{DisconnectReason, compute_reconnect_delay_ms}
use fluxterm.Reconnect.Connections.{
  SessionStateUi, connecting, connected, disconnected, error, reconnecting, Session,
  set_session_state,
}
use fluxterm.Reconnect.Runtime.{
  created, failed, clear_reconnect_state_by_id, schedule_reconnect_attempt,
}
use fluxterm.Reconnect.Lifecycle.{replace_session_connection_state}
use fluxterm.Sessions.Model.{
  SessionKind, HostProfile, Props, Live, Hook, append_app_event, clear_pending_host_key_for_profile,
}
use fluxterm.Sessions.Commands.{
  is_host_key_code, has_ended, add_session, connect_profile_command, reconnect_local_shell_command,
}
use fluxterm.Sessions.Events.{
  feedback_timer_fires, SessionStatus, is_connecting, should_auto_reconnect, ending_reason,
  end_session,
}
use fluxterm.Sessions.Openings.{connect_profile}
use fluxterm.Workspace.Reducer.{SessionWorkspaceState}
use fluxterm.Sessions.Commands.{settled}
use fluxterm.Sessions.Statuses.{apply_status, handle_session_status}
use fluxterm.Sessions.Agreement.{listed, listed-replace}
use fluxterm.Sessions.Endings.{handle_cases}
use fluxterm.Sessions.Messages.{consume_free, dropped_message}
use fluxterm.Sessions.Desk.{desk_rename, opens, restarts, hears, step, Heard, hear}
use fluxterm.Sessions.Cancellation.{handle_statuses}

-- From the balance of a replacement to what it does to each session.
rename_law :
    (after before : String → ℕ) (x n y : String)
    → after y + same x y * before x ≡ before y + same n y * before x
    → before n ≡ 0
    → (x == n) ≡ false
    → after y ≡ (if n == y then before x else if x == y then 0 else before y)
rename_law after before x n y law new other = elim (Bool-cases (n == y)) [
  | inl e ↦
      let hit = (eq_iff n y).0 e in
      rw e (
        omega (
          arith,
          law,
          new,
          ap before hit,
          ap (λ (t : ℕ). t * before x) (same_eq n y e),
          ap (λ (t : ℕ). t * before x) (same_ne x y (rw (← hit) other)),
        ))
  | inr e ↦ elim (Bool-cases (x == y)) [
    | inl f ↦
        rw (e, f)
          (omega (
            arith,
            law,
            ap before ((eq_iff x y).0 f),
            ap (λ (t : ℕ). t * before x) (same_ne n y e),
            ap (λ (t : ℕ). t * before x) (same_eq x y f),
          ))
    | inr f ↦
        rw (e, f)
          (omega (
            arith,
            law,
            ap (λ (t : ℕ). t * before x) (same_ne n y e),
            ap (λ (t : ℕ). t * before x) (same_ne x y f),
          ))
  ]
]

-- No message says that a session has failed.
abbrev pub AreFine : Heard → Type 0
AreFine [] = Unit
AreFine ((m, now) ∷ ms) = (m.state ≢ error) × AreFine ms

module _ {L R : Type 0} where
  command_sessions :
      (seen : SessionWorkspaceState R) (fresh : String) (h : Hook L R) (s : Session SessionKind)
      → (settled (connect_profile_command (λ k t. k) false seen fresh h (created s))).live.sessions
        ≡ h.live.sessions ++ s ∷ []
  unfolding connect_profile_command add_session
  command_sessions seen fresh h s =
      elim (Bool-cases (has_ended (get h.live.session_states s.session_id))) [
        | inl e ↦ rw (e, connect_profile_command) refl
        | inr e ↦ rw (e, connect_profile_command) refl
      ]

  command_failed :
      (seen : SessionWorkspaceState R) (fresh : String) (h : Hook L R) (code : String)
      → (settled
          (connect_profile_command (λ k t. k) false seen fresh h (failed code))).live.sessions
        ≡ h.live.sessions
  unfolding connect_profile_command
  command_failed seen fresh h code = elim (Bool-cases (is_host_key_code code)) [
    | inl e ↦ rw (e, connect_profile_command) refl
    | inr e ↦ rw (e, connect_profile_command) refl
  ]

module _ {L R : Type 0} (props : Props) where
  -- The session list and the workspace are as they were.
  abbrev pub IsSame : Live L R → Live L R → Type 0
  IsSame before after = (after.sessions ≡ before.sessions) × (after.workspace ≡ before.workspace)

  scheduled-IsSame :
      (c : Live L R) (x : String) (reason : DisconnectReason)
      → IsSame c (schedule_reconnect_attempt c x reason)
  unfolding schedule_reconnect_attempt
  scheduled-IsSame c x reason =
      elim (Option-cases
        (compute_reconnect_delay_ms reason (or_default (get c.reconnect_attempts x) 0 + 1))) [
          | inl e ↦ rw (e, schedule_reconnect_attempt) (refl, refl)
          | inr (d, e) ↦ rw (e, schedule_reconnect_attempt) (refl, refl)
        ]

  ended-IsSame :
      (h : Hook L R) (s : Session SessionKind) (x : String) (now : ℕ)
      → IsSame h.live (end_session props h s x now).live
  unfolding end_session append_app_event
  ended-IsSame h s x now =
      let reason = ending_reason h x now in
      elim (Bool-cases (should_auto_reconnect props reason)) [
        | inl e ↦ rw (e, end_session) (scheduled-IsSame _ x reason)
        | inr e ↦ rw (e, end_session) (refl, refl)
      ]

  applied-IsSame :
      (h : Hook L R) (x : String) (st : SessionStateUi) (message : Option String) (now : ℕ)
      → st ≢ error
      → IsSame h.live (apply_status props (λ k. k) h x st message now).live
  unfolding apply_status append_app_event
  applied-IsSame h x connecting message now fine = (refl, refl)
  applied-IsSame h x connected message now fine = (refl, refl)
  applied-IsSame h x disconnected message now fine = elim (handle_cases props h x) [
    | inl same_hook ↦ rw (same_hook now) (refl, refl)
    | inr (s, found, ends) ↦ rw (ends now) (ended-IsSame h s x now)
  ]
  applied-IsSame h x error message now fine = absurd (fine refl)
  applied-IsSame h x reconnecting message now fine = (refl, refl)

  pub told-IsSame :
      (h : Hook L R) (m : SessionStatus) (now : ℕ)
      → m.state ≢ error
      → IsSame h.live (step props h (hears m now)).live
  unfolding handle_session_status feedback_timer_fires
  told-IsSame h m now fine = elim (Option-cases (get h.suppressed_feedback_timers m.session_id)) [
    | inl e ↦
        rw (consume_free h m.session_id m.state e)
          (applied-IsSame h m.session_id m.state m.error_message now fine)
    | inr (timer, e) ↦
        rw (dropped_message props (λ k. k) h m now timer e)
          (elim (Bool-cases (is_connecting m.state)) [
            | inl f ↦ rw f (refl, refl)
            | inr f ↦ rw f (refl, refl)
          ])
  ]

  pub heard-IsSame : (h : Hook L R) (ms : Heard) → AreFine ms → IsSame h.live (hear props ms h).live
  unfolding handle_statuses
  heard-IsSame h [] fine = (refl, refl)
  heard-IsSame h ((m, now) ∷ ms) (first, fine) =
      let (ss, ws) = told-IsSame h m now first in
      let (later_ss, later_ws) = heard-IsSame (step props h (hears m now)) ms fine in
      (later_ss ∙ ss, later_ws ∙ ws)

  pub opened_sessions :
      (h : Hook L R) (profile : HostProfile) (fresh : String) (ms : Heard) (s : Session SessionKind)
      → AreFine ms
      → (step props h (opens profile fresh ms (created s))).live.sessions
        ≡ h.live.sessions ++ s ∷ []
  unfolding connect_profile append_app_event clear_pending_host_key_for_profile
  opened_sessions h profile fresh ms s fine =
      command_sessions h.live.workspace fresh _ s
      ∙ ap (λ ss. ss ++ s ∷ []) (heard-IsSame _ ms fine).0

  pub refused_sessions :
      (h : Hook L R) (profile : HostProfile) (fresh : String) (ms : Heard) (code : String)
      → AreFine ms
      → (step props h (opens profile fresh ms (failed code))).live.sessions ≡ h.live.sessions
  unfolding connect_profile append_app_event clear_pending_host_key_for_profile
  refused_sessions h profile fresh ms code fine =
      command_failed h.live.workspace fresh _ code ∙ (heard-IsSame _ ms fine).0

  pub restarted :
      (h : Hook L R) (x : String) (ms : Heard) (n : Session SessionKind) (y : String)
      → AreFine ms
      → listed n.session_id h.live.sessions ≡ 0
      → (x == n.session_id) ≡ false
      → listed y (step props h (restarts x ms (some n))).live.sessions
        ≡ desk_rename (λ z. listed z h.live.sessions) x n.session_id y
  unfolding reconnect_local_shell_command replace_session_connection_state
      clear_reconnect_state_by_id desk_rename
  restarted h x ms n y fine new other =
      let begun : Hook L R = record h { live = set_session_state h.live x reconnecting } in
      let ss = (heard-IsSame begun ms fine).0 in
      rename_law (λ z. listed z (step props h (restarts x ms (some n))).live.sessions)
        (λ z. listed z h.live.sessions) x n.session_id y
        (rw ss (listed-replace h.live.sessions x n y)) new other

  pub not_restarted :
      (h : Hook L R) (x : String) (ms : Heard)
      → AreFine ms
      → (step props h (restarts x ms none)).live.sessions ≡ h.live.sessions
  unfolding reconnect_local_shell_command
  not_restarted h x ms fine = (heard-IsSame _ ms fine).0
