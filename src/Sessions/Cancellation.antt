-- ===== src/Sessions/Cancellation.antt =====
-- What becomes of the messages of a session whose connection was cancelled
-- (src/hooks/useSessionStateCore.ts).
use fluxterm.Base.{ℕ, String, true, ◌≡◌, List, [], ◌∷◌}
use fluxterm.Sessions.Model.{Props, Hook}
use fluxterm.Sessions.Events.{SessionStatus, is_connecting}
use fluxterm.Sessions.Statuses.{handle_session_status}

-- Messages that a session is connecting.
abbrev pub AreConnecting : String → List (SessionStatus × ℕ) → Type 0
AreConnecting x [] = Unit
AreConnecting x ((m, now) ∷ ms) =
    (m.session_id ≡ x) × (is_connecting m.state ≡ true) × AreConnecting x ms

module _ {L R : Type 0} where
  -- Messages, one after the other, each at its time.
  unfoldable pub handle_statuses :
      Props → (Hook L R → Hook L R) → Hook L R → List (SessionStatus × ℕ) → Hook L R
  handle_statuses props meanwhile h [] = h
  handle_statuses props meanwhile h ((m, now) ∷ ms) =
      handle_statuses props meanwhile (handle_session_status props meanwhile h m now) ms
