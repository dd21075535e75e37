-- ===== src/Sessions/Sending.antt =====
-- What an input of a session does besides waiting its turn, in `sendSessionInput` of
-- src/hooks/useSessionStateCore.ts. The bytes that a serial session shows are left out.
use Prim.Native.Char.{code}
use fluxterm.Base.{ℕ, String, Bool, false, ◌||◌, none, some, List, eqb, if◌then◌else◌}
use fluxterm.Sessions.Model.{
  SessionKind, ssh, local_shell, serial, Props, Hook, get_session_kind, is_local_session,
  mark_terminal_eof_requested, clear_terminal_eof_requested,
}
use fluxterm.Sessions.Events.{handle_session_disconnected}
use fluxterm.Sessions.Commands.{Ran, finished, thrown}

pub data SessionInput : Type 0 where
  text : String → SessionInput
  binary : List ℕ → SessionInput

-- `data.includes("\\u0004")`
abbrev pub has_eof : String → Bool
has_eof String.[] = false
has_eof (String.◌∷◌ c s) = eqb (code c) 4 || has_eof s

unfoldable pub input_command : SessionKind → SessionInput → String
input_command ssh (text s) = "ssh_write"
input_command ssh (binary bytes) = "ssh_write_binary"
input_command local_shell (text s) = "local_shell_write"
input_command local_shell (binary bytes) = "local_shell_write_binary"
input_command serial (text s) = "serial_write_text"
input_command serial (binary bytes) = "serial_write_binary"

module _ {L R : Type 0} where
  -- An end of input is noted when it is sent, and forgotten with the next text.
  unfoldable pub note_eof : Hook L R → String → SessionInput → ℕ → Hook L R
  note_eof h session_id (text s) now = record h {
    terminal_eof_request_at =
        (if has_eof s
          then mark_terminal_eof_requested h.terminal_eof_request_at session_id now
          else clear_terminal_eof_requested h.terminal_eof_request_at session_id);
  }
  note_eof h session_id (binary bytes) now = h

  -- Up to the queue: an input for a session that is not there throws.
  unfoldable pub begin_session_input : Hook L R → String → SessionInput → ℕ → Ran (Hook L R)
  begin_session_input h session_id input now = elim (get_session_kind h session_id) [
    | none ↦ thrown (note_eof h session_id input now) ""
    | some kind ↦ finished (note_eof h session_id input now)
  ]

  -- The back end refuses an input: a local shell that cannot be written to has ended.
  unfoldable pub fail_session_input : Props → Hook L R → String → ℕ → Hook L R
  fail_session_input props h session_id now =
      if is_local_session h session_id
      then handle_session_disconnected props h session_id now
      else h
