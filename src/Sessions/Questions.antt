-- ===== src/Sessions/Questions.antt =====
-- What becomes of the question about a host's key when it is cancelled
-- (src/hooks/useSessionStateCore.ts).
use fluxterm.Base.{String, Bool, true, false, ◌==◌, ◌≡◌, refl, none, some, ◌∷◌, find, if◌then◌else◌}
use fluxterm.Base.Dict.{get, put, delete, get-put_self, get-delete, get-delete_self}
use fluxterm.Reconnect.Connections.{disconnected}
use fluxterm.Reconnect.Retries.{IsQuiet}
use fluxterm.Reconnect.Runtime.{clear_reconnect_state_by_id}
use fluxterm.Workspace.Reducer.{truthy}
use fluxterm.Sessions.Model.{HostProfile, Props, Hook, clear_pending_host_key_for_profile}
use fluxterm.Sessions.HostKeys.{handle_host_key_verification_required, cancel_host_key}

abbrev pub key_title : Bool → String
key_title is_mismatch =
    if is_mismatch then "dialog.sshHostKeyMismatchTitle" else "dialog.sshHostKeyUnknownTitle"

module _ {L R : Type 0} where
  -- A question that is open is not put again.
  asked_once :
      (props : Props) (h : Hook L R) (pid : String) (is_mismatch : Bool)
      → get h.pending_host_key_dialog pid ≡ some true
      → handle_host_key_verification_required props h pid is_mismatch ≡ h
  unfolding handle_host_key_verification_required
  asked_once props h pid is_mismatch e = rw (e, handle_host_key_verification_required) refl

  asks :
      (props : Props) (h : Hook L R) (profile : HostProfile) (pid : String) (is_mismatch : Bool)
      → get h.pending_host_key_dialog pid ≡ none
      → find (λ (item : HostProfile). item.id == pid) props.profiles ≡ some profile
      → handle_host_key_verification_required props h pid is_mismatch ≡ record h {
        pending_host_key_dialog = put h.pending_host_key_dialog pid true;
        dialogs = key_title is_mismatch ∷ h.dialogs;
      }
  unfolding handle_host_key_verification_required
  asks props h profile pid is_mismatch e found =
      rw (e, found, handle_host_key_verification_required) refl

  waits_for_key :
      (h : Hook L R) (pid x : String)
      → get h.pending_host_key_reconnect pid ≡ some x
      → (x == "") ≡ false
      → truthy (get h.pending_host_key_reconnect pid) ≡ some x
  unfolding truthy
  waits_for_key h pid x e filled = rw (e, truthy, filled) refl

  -- What a cancelled question leaves, where the session `x` waits for the key.
  abbrev pub without_question : Hook L R → String → String → Hook L R
  without_question h pid x = record h {
    live = record (clear_reconnect_state_by_id h.live x) {
      session_states = put (clear_reconnect_state_by_id h.live x).session_states x disconnected;
    };
    pending_host_key_reconnect = delete h.pending_host_key_reconnect pid;
    pending_host_key_dialog = delete h.pending_host_key_dialog pid;
  }

  cancelled_waiting :
      (h : Hook L R) (pid x : String)
      → get h.pending_host_key_reconnect pid ≡ some x
      → (x == "") ≡ false
      → cancel_host_key h pid ≡ without_question h pid x
  unfolding cancel_host_key clear_pending_host_key_for_profile
  cancelled_waiting h pid x e filled = rw (waits_for_key h pid x e filled, cancel_host_key) refl

  -- When the question about the key of a known profile's host is cancelled and a session, whose
  -- id is not empty, waits for the key, that session is disconnected and nothing of its retries is
  -- left; no session and no pane changes, and no question about another profile. The next question
  -- about the profile is put to the user again, and while it is open no other one is.
  pub cancel_host_key_lem :
      (props : Props) (h : Hook L R) (profile : HostProfile) (pid q x : String)
      (is_mismatch again : Bool)
      → find (λ (item : HostProfile). item.id == pid) props.profiles ≡ some profile
      → get h.pending_host_key_reconnect pid ≡ some x
      → (x == "") ≡ false
      → (pid == q) ≡ false
      → let cancelled = cancel_host_key h pid in
        let asked = handle_host_key_verification_required props cancelled pid is_mismatch in
        IsQuiet cancelled.live x
        × (get cancelled.live.session_states x ≡ some disconnected)
        × (cancelled.live.sessions ≡ h.live.sessions)
        × (cancelled.live.workspace ≡ h.live.workspace)
        × (get cancelled.pending_host_key_dialog q ≡ get h.pending_host_key_dialog q)
        × (get cancelled.pending_host_key_reconnect q ≡ get h.pending_host_key_reconnect q)
        × (asked.dialogs ≡ key_title is_mismatch ∷ h.dialogs)
        × (handle_host_key_verification_required props asked pid again ≡ asked)
  unfolding clear_reconnect_state_by_id
  cancel_host_key_lem props h profile pid q x is_mismatch again found waits filled other =
      let left = without_question h pid x in
      let unasked = get-delete_self h.pending_host_key_dialog pid in
      rw
        (
          cancelled_waiting h pid x waits filled,
          asks props left profile pid is_mismatch unasked found,
        )
        (
          record {
            no_timer = get-delete_self h.live.reconnect_timers x;
            no_attempts = get-delete_self h.live.reconnect_attempts x;
            no_info = get-delete_self h.live.reconnect_info x;
          },
          get-put_self h.live.session_states x disconnected,
          refl,
          refl,
          rw (get-delete, other) refl,
          rw (get-delete, other) refl,
          refl,
          asked_once props _ pid again (get-put_self left.pending_host_key_dialog pid true),
        )
