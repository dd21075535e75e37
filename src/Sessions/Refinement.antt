-- ===== src/Sessions/Refinement.antt =====
-- The session hook (src/hooks/useSessionStateCore.ts) refines the desk of open sessions.
use fluxterm.Base.{
  same_of_ne, String, false, ◌==◌, ◌≡◌, ◌≢◌, ap, ◌∙◌, Option, none, some, List, [], ◌∷◌, arith,
  eq_iff,
}
use fluxterm.Reconnect.Connections.{set_session_state, reconnecting, connected, error}
use fluxterm.Reconnect.Runtime.{Created, created, failed}
use fluxterm.Workspace.Tree.{SessionPaneNode}
use fluxterm.Workspace.Groups.{SessionGroup}
use fluxterm.Workspace.Counts.{sessions_in}
use fluxterm.Workspace.Invariant.{IsWellFormed, IsTarget, state}
use fluxterm.Sessions.Model.{SessionKind, HostProfile, Live, Props, Hook}
use fluxterm.Sessions.Commands.{attach_target, reconnect_local_shell_command}
use fluxterm.Sessions.Agreement.{listed, listed-concat}
use fluxterm.Sessions.Preservation.{
  IsNew, IsHookConsistent, connection-IsConsistent, close_sessions-IsConsistent,
}
use fluxterm.Sessions.Cancellation.{handle_statuses}
use fluxterm.Workspace.Reducer.{SessionWorkspaceState}
use fluxterm.Sessions.Additions.{CanConnect, connect_profile-IsConsistent}
use fluxterm.Sessions.Rows.{AreCalm, listed-close_sessions}
use fluxterm.Sessions.Messages.{handle_session_status-IsConsistent}
use fluxterm.Sessions.Desk.{
  Desk, desk_open, desk_close, desk_rename, Command, opens, closes, restarts, hears, desk_step,
  desk_run, step, run, Heard, hear,
}
use fluxterm.Sessions.DeskEffects.{
  AreFine, heard-IsSame, opened_sessions, refused_sessions, restarted, not_restarted, told-IsSame,
}

own-IsTarget :
    (R : Type 0) (root : Option (SessionPaneNode R)) (active : Option String)
    (gs : List SessionGroup) (fresh : String)
    → IsWellFormed (state root active gs)
    → IsTarget root (attach_target (state root active gs) fresh)
unfolding attach_target
own-IsTarget R none active gs fresh w = tt
own-IsTarget R (some root) none gs fresh w = absurd w.tree
own-IsTarget R (some root) (some a) gs fresh w = w.tree.1

-- A step of the desk looks at what is open only.
desk_step-cong :
    (f g : Desk) (c : Command) (y : String)
    → ((z : String) → f z ≡ g z)
    → desk_step f c y ≡ desk_step g c y
unfolding desk_open desk_close desk_rename
desk_step-cong f g (opens profile fresh ms (created s)) y h = omega (arith, h y)
desk_step-cong f g (opens profile fresh ms (failed code)) y h = h y
desk_step-cong f g (closes xs ms) y h = ground (arith, h y)
desk_step-cong f g (restarts x ms (some n)) y h = ground (arith, h y, h x)
desk_step-cong f g (restarts x ms none) y h = h y
desk_step-cong f g (hears m now) y h = h y

module _ {L R : Type 0} (props : Props) where
  -- The hook holds exactly the sessions of the desk, in its list and in its panes.
  pub record Represents (h : Hook L R) (desk : Desk) : Type 0 where
    pub consistent : IsHookConsistent h
    pub unnamed : listed "" h.live.sessions ≡ 0
    pub opened : (y : String) → listed y h.live.sessions ≡ desk y

  -- New sessions have new ids; failures of sessions are not among the messages.
  abbrev pub IsAllowed : Hook L R → Command → Type 0
  IsAllowed h (opens profile fresh ms (created s)) =
      AreFine ms × (listed s.session_id h.live.sessions ≡ 0) × (s.session_id ≢ "") × (fresh ≢ "")
  IsAllowed h (opens profile fresh ms (failed code)) = AreFine ms × (fresh ≢ "")
  IsAllowed h (closes xs ms) = (x : String) → AreFine (ms x)
  IsAllowed h (restarts x ms (some n)) =
      AreFine ms
      × (listed n.session_id h.live.sessions ≡ 0)
      × (n.session_id ≢ "")
      × ((x == n.session_id) ≡ false)
  IsAllowed h (restarts x ms none) = AreFine ms
  IsAllowed h (hears m now) = m.state ≢ error

  abbrev pub AreAllowed : Hook L R → List Command → Type 0
  AreAllowed h [] = Unit
  AreAllowed h (c ∷ cs) = IsAllowed h c × AreAllowed (step props h c) cs

  heard-IsConsistent :
      (h : Hook L R) (ms : Heard) → IsHookConsistent h → IsHookConsistent (hear props ms h)
  unfolding handle_statuses
  heard-IsConsistent h [] ok = ok
  heard-IsConsistent h ((m, now) ∷ ms) ok =
      heard-IsConsistent (step props h (hears m now)) ms
        (handle_session_status-IsConsistent props (λ k. k) h m now ok (λ k kept. kept))

  IsNew-still :
      (answer : Created SessionKind) (before after : Live L R)
      → after.sessions ≡ before.sessions
      → IsNew answer before
      → IsNew answer after
  IsNew-still (created s) before after e new = rw e new
  IsNew-still (failed code) before after e new = tt

  heard-CanConnect :
      (seen : SessionWorkspaceState R) (fresh : String) (answer : Created SessionKind) (ms : Heard)
      (k : Hook L R)
      → AreFine ms
      → CanConnect seen fresh answer k
      → CanConnect seen fresh answer (hear props ms k)
  heard-CanConnect seen fresh answer ms k fine (ok, new, target) =
      let (ss, ws) = heard-IsSame props k ms fine in
      (
        heard-IsConsistent k ms ok,
        IsNew-still answer k.live (hear props ms k).live ss new,
        rw ws target,
      )

  heard-AreCalm :
      (ms : String → Heard)
      → ((x : String) → AreFine (ms x))
      → AreCalm {L = L} {R = R} (λ x. hear props (ms x))
  heard-AreCalm ms fine x k =
      (λ y. ap (listed y) (heard-IsSame props k (ms x) (fine x)).0, heard-IsConsistent k (ms x))

  opened-consistent :
      (h : Hook L R) (profile : HostProfile) (fresh : String) (ms : Heard)
      (answer : Created SessionKind)
      → IsHookConsistent h
      → AreFine ms
      → IsNew answer h.live
      → fresh ≢ ""
      → IsHookConsistent (step props h (opens profile fresh ms answer))
  opened-consistent h profile fresh ms answer ok fine new named =
      let target =
        own-IsTarget R h.live.workspace.root h.live.workspace.active_pane_id h.live.workspace.groups
          fresh ok.well_formed in
      connect_profile-IsConsistent props (λ k t. k) false (hear props ms) fresh h profile answer
        named (ok, new, target) (λ k. heard-CanConnect h.live.workspace fresh answer ms k fine)
        (λ t k kept. kept)

  step-consistent :
      (h : Hook L R) (c : Command)
      → IsHookConsistent h
      → IsAllowed h c
      → IsHookConsistent (step props h c)
  unfolding reconnect_local_shell_command
  step-consistent h (opens profile fresh ms (created s)) ok (fine, new, filled, named) =
      opened-consistent h profile fresh ms (created s) ok fine new named
  step-consistent h (opens profile fresh ms (failed code)) ok (fine, named) =
      opened-consistent h profile fresh ms (failed code) ok fine tt named
  step-consistent h (closes xs ms) ok fine =
      close_sessions-IsConsistent (λ x. hear props (ms x)) h xs ok
        (λ x k. heard-IsConsistent k (ms x))
  step-consistent h (restarts x ms (some n)) ok (fine, new, filled, other) =
      let begun : Hook L R = record h { live = set_session_state h.live x reconnecting } in
      connection-IsConsistent _ x n connected _ (heard-IsConsistent begun ms ok)
        (rw (heard-IsSame props begun ms fine).0 new)
  step-consistent h (restarts x ms none) ok fine = heard-IsConsistent _ ms ok
  step-consistent h (hears m now) ok fine =
      handle_session_status-IsConsistent props (λ k. k) h m now ok (λ k kept. kept)

  step-listed :
      (h : Hook L R) (c : Command) (y : String)
      → listed "" h.live.sessions ≡ 0
      → IsAllowed h c
      → listed y (step props h c).live.sessions ≡ desk_step (λ z. listed z h.live.sessions) c y
  unfolding desk_open desk_close
  step-listed h (opens profile fresh ms (created s)) y unnamed (fine, new, filled, named) =
      ap (listed y) (opened_sessions props h profile fresh ms s fine)
      ∙ listed-concat h.live.sessions s y
  step-listed h (opens profile fresh ms (failed code)) y unnamed (fine, named) =
      ap (listed y) (refused_sessions props h profile fresh ms code fine)
  step-listed h (closes xs ms) y unnamed fine =
      listed-close_sessions (λ x. hear props (ms x)) h xs y (heard-AreCalm ms fine) unnamed
  step-listed h (restarts x ms (some n)) y unnamed (fine, new, filled, other) =
      restarted props h x ms n y fine new other
  step-listed h (restarts x ms none) y unnamed fine =
      ap (listed y) (not_restarted props h x ms fine)
  step-listed h (hears m now) y unnamed fine = ap (listed y) (told-IsSame props h m now fine).0

  step-unnamed :
      (desk : Desk) (h : Hook L R) (c : Command)
      → desk "" ≡ 0
      → IsAllowed h c
      → desk_step desk c "" ≡ 0
  unfolding desk_open desk_close desk_rename
  step-unnamed desk h (opens profile fresh ms (created s)) none_there (fine, new, filled, named) =
      omega (arith, none_there, same_of_ne s.session_id "" filled)
  step-unnamed desk h (opens profile fresh ms (failed code)) none_there fine = none_there
  step-unnamed desk h (closes xs ms) none_there fine = ground arith
  step-unnamed desk h (restarts x ms (some n)) none_there (fine, new, filled, other) =
      ground (arith, eq_iff n.session_id "", filled)
  step-unnamed desk h (restarts x ms none) none_there fine = none_there
  step-unnamed desk h (hears m now) none_there fine = none_there

  pub step-Represents :
      (h : Hook L R) (desk : Desk) (c : Command)
      → Represents h desk
      → IsAllowed h c
      → Represents (step props h c) (desk_step desk c)
  step-Represents h desk c r fine =
      let held = λ (y : String). step-listed h c y r.unnamed fine in
      record {
        consistent = step-consistent h c r.consistent fine;
        unnamed = held "" ∙ step-unnamed (λ z. listed z h.live.sessions) h c r.unnamed fine;
        opened = λ y. held y ∙ desk_step-cong (λ z. listed z h.live.sessions) desk c y r.opened;
      }

  -- From a hook that holds exactly the sessions of a desk, in its list and in its panes, that stays
  -- so when connections to hosts are opened and succeed or fail, sessions are closed, local shells
  -- are started again or cannot be, and status messages arrive, in any order: each command ends
  -- before the next begins, and while the back end is asked nothing but status messages arrives;
  -- no message says that a session has failed, and new sessions have ids that are new and not
  -- empty.
  pub run-refines :
      (h : Hook L R) (desk : Desk) (cs : List Command)
      → Represents h desk
      → AreAllowed h cs
      → (y : String)
      → (listed y (run props h cs).live.sessions ≡ desk_run desk cs y)
        × (sessions_in y (run props h cs).live.workspace.root ≡ desk_run desk cs y)
  unfolding run desk_run
  run-refines h desk [] r fine y = (r.opened y, r.consistent.agrees y ∙ r.opened y)
  run-refines h desk (c ∷ cs) r (fine, rest) y =
      run-refines (step props h c) (desk_step desk c) cs (step-Represents h desk c r fine) rest y
