-- ===== src/Sessions/HostKeys.antt =====
-- The questions about host keys, of src/hooks/useSessionStateCore.ts.
use fluxterm.Base.{String, Bool, true, false, ◌==◌, none, some, find, or_default, if◌then◌else◌}
use fluxterm.Base.Dict.{get, put}
use fluxterm.Reconnect.Connections.{disconnected}
use fluxterm.Reconnect.Runtime.{Created, clear_reconnect_state_by_id}
use fluxterm.Workspace.Reducer.{truthy}
use fluxterm.Sessions.Model.{
  SessionKind, HostProfile, Props, Hook, clear_pending_host_key_for_profile,
}
use fluxterm.Sessions.Events.{set_state}
use fluxterm.Sessions.Commands.{finished, thrown}
use fluxterm.Sessions.Statuses.{open_dialog}
use fluxterm.Sessions.Openings.{connect_profile, reconnect_session}

-- What `ssh_host_key_confirm` answers, and then the back end to the connection that goes on.
pub data Confirmed : Type 0 where
  confirmed : Created SessionKind → Confirmed
  refused : Confirmed

module _ {L R : Type 0} where
  -- The question about a host's key is put once at a time for a profile.
  unfoldable pub handle_host_key_verification_required : Props → Hook L R → String → Bool → Hook L R
  handle_host_key_verification_required props h profile_id is_mismatch =
      if or_default (get h.pending_host_key_dialog profile_id) false
      then h
      else elim (find (λ (item : HostProfile). item.id == profile_id) props.profiles) [
        | none ↦ h
        | some profile ↦
            open_dialog
              (record h { pending_host_key_dialog = put h.pending_host_key_dialog profile_id true })
              (if is_mismatch
                then "dialog.sshHostKeyMismatchTitle"
                else "dialog.sshHostKeyUnknownTitle")
      ]

  abbrev pub clear_reconnect_state : Hook L R → String → Hook L R
  clear_reconnect_state h session_id = record h {
    live = clear_reconnect_state_by_id h.live session_id;
  }

  -- The user trusts the key: the session that waits for it is reconnected, or else the profile is
  -- connected. Once that has thrown, nothing about the profile is pending. `waiting` is what
  -- happens until the key is saved.
  unfoldable pub confirm_host_key :
      Props
      → (Hook L R → Hook L R)
      → (Hook L R → Hook L R)
      → String
      → Hook L R
      → HostProfile
      → Confirmed
      → Hook L R
  confirm_host_key props waiting meanwhile fresh h profile refused =
      clear_pending_host_key_for_profile (waiting h) profile.id
  confirm_host_key props waiting meanwhile fresh h profile (confirmed answer) =
      let cleared = clear_pending_host_key_for_profile (waiting h) profile.id in
      elim (truthy (get h.pending_host_key_reconnect profile.id)) [
        | some session_id ↦
            reconnect_session props meanwhile (clear_reconnect_state cleared session_id) session_id
              answer
        | none ↦
            elim (connect_profile props (λ k session. k) false meanwhile fresh cleared profile
              answer) [
                | finished after ↦ after
                | thrown after code ↦ clear_pending_host_key_for_profile after profile.id
              ]
      ]

  unfoldable pub cancel_host_key : Hook L R → String → Hook L R
  cancel_host_key h profile_id =
      let cleared = clear_pending_host_key_for_profile h profile_id in
      elim (truthy (get h.pending_host_key_reconnect profile_id)) [
        | none ↦ cleared
        | some session_id ↦
            set_state (clear_reconnect_state cleared session_id) session_id disconnected
      ]
