-- ===== src/Sessions/Desk.antt =====
-- What the session hook (src/hooks/useSessionStateCore.ts) promises its users: a desk of open
-- sessions, that grows and shrinks one session at a time. A command of the user runs to its end
-- before the next begins; while the back end is asked, its status messages arrive.
use fluxterm.Base.{
  ℕ, ◌+◌, String, false, ◌==◌, Option, none, some, List, [], ◌∷◌, includes, same, if◌then◌else◌,
}
use fluxterm.Reconnect.Connections.{Session}
use fluxterm.Reconnect.Runtime.{Created, created, failed}
use fluxterm.Sessions.Model.{SessionKind, HostProfile, Props, Hook}
use fluxterm.Sessions.Commands.{settled, reconnect_local_shell_command}
use fluxterm.Sessions.Events.{SessionStatus}
use fluxterm.Sessions.Handlers.{close_sessions}
use fluxterm.Sessions.Openings.{connect_profile}
use fluxterm.Sessions.Statuses.{handle_session_status}
use fluxterm.Sessions.Cancellation.{handle_statuses}

-- How often each session is open.
abbrev pub Desk : Type 0
Desk = String → ℕ

unfoldable pub desk_open : Desk → String → Desk
desk_open desk x y = desk y + same x y

unfoldable pub desk_close : Desk → List String → Desk
desk_close desk xs y = if includes xs y then 0 else desk y

-- The open session `x` goes on as `n`.
unfoldable pub desk_rename : Desk → String → String → Desk
desk_rename desk x n y = if n == y then desk x else if x == y then 0 else desk y

-- Status messages, each with its time.
abbrev pub Heard : Type 0
Heard = List (SessionStatus × ℕ)

-- A connection to a host, the closing of sessions, a local shell that is started again (`none`
-- where it cannot be), and a status message by itself; with the messages that arrive while the
-- back end is asked, for `closes` those that arrive with each session.
pub data Command : Type 0 where
  opens : HostProfile → String → Heard → Created SessionKind → Command
  closes : List String → (String → Heard) → Command
  restarts : String → Heard → Option (Session SessionKind) → Command
  hears : SessionStatus → ℕ → Command

abbrev pub desk_step : Desk → Command → Desk
desk_step desk (opens profile fresh ms (created s)) = desk_open desk s.session_id
desk_step desk (opens profile fresh ms (failed code)) = desk
desk_step desk (closes xs ms) = desk_close desk xs
desk_step desk (restarts x ms (some n)) = desk_rename desk x n.session_id
desk_step desk (restarts x ms none) = desk
desk_step desk (hears m now) = desk

unfoldable pub desk_run : Desk → List Command → Desk
desk_run desk [] = desk
desk_run desk (c ∷ cs) = desk_run (desk_step desk c) cs

module _ {L R : Type 0} (props : Props) where
  abbrev pub hear : Heard → Hook L R → Hook L R
  hear ms k = handle_statuses props (λ l. l) k ms

  abbrev pub step : Hook L R → Command → Hook L R
  step h (opens profile fresh ms answer) =
      settled (connect_profile props (λ k t. k) false (hear ms) fresh h profile answer)
  step h (closes xs ms) = close_sessions (λ x. hear (ms x)) h xs
  step h (restarts x ms answer) =
      reconnect_local_shell_command (props.t "session.local") (hear ms) h x answer
  step h (hears m now) = handle_session_status props (λ k. k) h m now

  unfoldable pub run : Hook L R → List Command → Hook L R
  run h [] = h
  run h (c ∷ cs) = run (step h c) cs
