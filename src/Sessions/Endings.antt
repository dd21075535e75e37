-- ===== src/Sessions/Endings.antt =====
-- The end of a session as the hook hears of it (src/hooks/useSessionStateCore.ts): from the end of
-- its terminal, from a status message, or from an input that fails.
use fluxterm.Base.{
  ◌⊎◌, ℕ, ◌+◌, String, true, false, ◌≡◌, refl, ap, ◌∙◌, Option, none, some, [], ◌∷◌, ◌++◌,
  Bool-cases, Option-cases, inl, inr, or_default,
}
use fluxterm.Base.Dict.{Dict, get, get-put_self}
use fluxterm.Reconnect.Policy.{DisconnectReason, compute_reconnect_delay_ms}
use fluxterm.Reconnect.Connections.{disconnected, reconnecting, Session}
use fluxterm.Reconnect.Runtime.{schedule_reconnect_attempt}
use fluxterm.Sessions.Model.{SessionKind, Props, Live, Hook, find_session, append_app_event}
use fluxterm.Sessions.Events.{
  should_auto_reconnect, ending_reason, end_session, handle_session_disconnected,
}
use fluxterm.Sessions.Delays.{retry_delay, planned}

module _ {L R : Type 0} where
  -- What the end of a session changes in what is live, once it was scheduled or not.
  scheduled_handled :
      (c : Live L R) (x : String) (reason : DisconnectReason)
      → (schedule_reconnect_attempt c x reason).close_handled ≡ c.close_handled
  unfolding schedule_reconnect_attempt
  scheduled_handled c x reason =
      elim (Option-cases
        (compute_reconnect_delay_ms reason (or_default (get c.reconnect_attempts x) 0 + 1))) [
          | inl e ↦ rw (e, schedule_reconnect_attempt) refl
          | inr (d, e) ↦ rw (e, schedule_reconnect_attempt) refl
        ]

  end_session_handled :
      (props : Props) (h : Hook L R) (s : Session SessionKind) (x : String) (now : ℕ)
      → get (end_session props h s x now).live.close_handled x ≡ some true
  unfolding end_session append_app_event
  end_session_handled props h s x now =
      elim (Bool-cases (should_auto_reconnect props (ending_reason h x now))) [
        | inl e ↦ rw (e, end_session, scheduled_handled) (get-put_self h.live.close_handled x true)
        | inr e ↦ rw (e, end_session) (get-put_self h.live.close_handled x true)
      ]

  handled_again :
      (props : Props) (h : Hook L R) (x : String) (now : ℕ)
      → get h.live.close_handled x ≡ some true
      → handle_session_disconnected props h x now ≡ h
  unfolding handle_session_disconnected
  handled_again props h x now e = rw e refl

  -- Whether the end is handled does not depend on the time.
  pub handle_cases :
      (props : Props) (h : Hook L R) (x : String)
      → ((now : ℕ) → handle_session_disconnected props h x now ≡ h)
        ⊎ ((s : Session SessionKind) × (find_session h x ≡ some s)
            × ((now : ℕ) → handle_session_disconnected props h x now ≡ end_session props h s x now))
  unfolding handle_session_disconnected
  handle_cases props h x = elim (Bool-cases (or_default (get h.live.close_handled x) false)) [
    | inl e ↦ inl (λ now. rw e refl)
    | inr e ↦ elim (Bool-cases (or_default (get h.suppressed_banners x) false)) [
      | inl f ↦ inl (λ now. rw (e, f) refl)
      | inr f ↦ elim (Option-cases (find_session h x)) [
        | inl g ↦ inl (λ now. rw (e, f, g) refl)
        | inr (s, g) ↦ inr (s, g, λ now. rw (e, f, g) refl)
      ]
    ]
  ]

  -- The end of a session is handled once: when it is heard of again, at whatever time, nothing
  -- changes.
  pub handle_session_disconnected-again :
      (props : Props) (h : Hook L R) (x : String) (now later : ℕ)
      → handle_session_disconnected props (handle_session_disconnected props h x now) x later
        ≡ handle_session_disconnected props h x now
  handle_session_disconnected-again props h x now later = elim (handle_cases props h x) [
    | inl same_hook ↦ rw (same_hook now) (same_hook later)
    | inr (s, found, ends) ↦ rw (ends now) (
        handled_again props (end_session props h s x now) x later
          (end_session_handled props h s x now))
  ]

  -- A session shows that it will be reconnected: its next attempt, after this delay, is counted and
  -- announced, and a timer is set for it. Or it shows that it will not, and no timer is set.
  abbrev pub ShowsRetry : Live L R → Live L R → String → Option ℕ → Type 0
  ShowsRetry before c x none =
      (get c.session_states x ≡ some disconnected) × (c.timers ≡ before.timers)
  ShowsRetry before c x (some delay_ms) =
      let attempt = or_default (get before.reconnect_attempts x) 0 + 1 in
      (get c.session_states x ≡ some reconnecting)
      × (get c.reconnect_attempts x ≡ some attempt)
      × (get c.reconnect_info x ≡ some (record { attempt = attempt; delay_ms = delay_ms }))
      × (get c.reconnect_timers x ≡ some before.next_handle)
      × (c.timers
          ≡ before.timers
            ++ record { handle = before.next_handle; session_id = x; delay_ms = delay_ms } ∷ [])

  scheduled :
      (c : Live L R) (x : String) (reason : DisconnectReason)
      → ((schedule_reconnect_attempt c x reason).session_reasons ≡ c.session_reasons)
        × ShowsRetry c
            (schedule_reconnect_attempt c x reason)
            x
            (compute_reconnect_delay_ms reason (or_default (get c.reconnect_attempts x) 0 + 1))
  unfolding schedule_reconnect_attempt
  scheduled c x reason =
      let attempts = or_default (get c.reconnect_attempts x) 0 + 1 in
      elim (Option-cases (compute_reconnect_delay_ms reason attempts)) [
        | inl e ↦
            rw (e, schedule_reconnect_attempt)
              (refl, (get-put_self c.session_states x disconnected, refl))
        | inr (d, e) ↦
            rw (e, schedule_reconnect_attempt)
              (
                refl,
                (
                  get-put_self c.session_states x reconnecting,
                  get-put_self c.reconnect_attempts x attempts,
                  get-put_self c.reconnect_info x (record { attempt = attempts; delay_ms = d }),
                  get-put_self c.reconnect_timers x c.next_handle,
                  refl,
                ),
              )
      ]

  ended :
      (props : Props) (h : Hook L R) (s : Session SessionKind) (x : String) (now : ℕ)
      → (get (end_session props h s x now).live.session_reasons x ≡ some (ending_reason h x now))
        × ShowsRetry h.live (end_session props h s x now).live x (
            retry_delay props
              (ending_reason h x now)
              (or_default (get h.live.reconnect_attempts x) 0))
  unfolding end_session append_app_event
  ended props h s x now =
      let reason = ending_reason h x now in
      elim (Bool-cases (should_auto_reconnect props reason)) [
        | inl e ↦
            let (reasons, retry) = scheduled _ x reason in
            rw
              (
                e,
                end_session,
                ← planned props reason (or_default (get h.live.reconnect_attempts x) 0),
                e,
              )
              (
                ap (λ (d : Dict DisconnectReason). get d x) reasons
                    ∙ get-put_self h.live.session_reasons x reason,
                retry,
              )
        | inr e ↦
            rw
              (
                e,
                end_session,
                ← planned props reason (or_default (get h.live.reconnect_attempts x) 0),
                e,
              )
              (
                get-put_self h.live.session_reasons x reason,
                (get-put_self h.live.session_states x disconnected, refl),
              )
      ]

  -- The end of a session that is in the list, and whose end was neither handled nor is to be kept
  -- quiet, records the reason that is inferred. After a power-off or a reboot, when the settings
  -- ask for it, the session shows that it is reconnecting: the next attempt is counted and
  -- announced, and a timer is set for it, with the delay of the reason and of the number of the
  -- attempts before, however many there were. Otherwise the session shows that it is disconnected
  -- and no timer is set.
  pub handle_session_disconnected_lem :
      (props : Props) (h : Hook L R) (x : String) (now : ℕ) (s : Session SessionKind)
      → or_default (get h.live.close_handled x) false ≡ false
      → or_default (get h.suppressed_banners x) false ≡ false
      → find_session h x ≡ some s
      → let after = handle_session_disconnected props h x now in
        let made = or_default (get h.live.reconnect_attempts x) 0 in
        (get after.live.session_reasons x ≡ some (ending_reason h x now))
        × ShowsRetry h.live after.live x (retry_delay props (ending_reason h x now) made)
  unfolding handle_session_disconnected
  handle_session_disconnected_lem props h x now s unhandled loud found =
      rw (unhandled, loud, found) (ended props h s x now)
