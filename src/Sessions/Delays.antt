-- ===== src/Sessions/Delays.antt =====
-- How long a session that has ended waits before it is reconnected by itself, written out from the
-- table of src/features/session/core/reconnectPolicy.ts and the settings.
use fluxterm.Base.{
  eqb, arith, ℕ, suc, zero, ◌-◌, min, ◌+◌, false, ◌≡◌, refl, Option, none, some, if◌then◌else◌,
}
use fluxterm.Reconnect.Policy.{
  DisconnectReason, exit, poweroff, reboot, network, unknown, compute_reconnect_delay_ms,
}
use fluxterm.Sessions.Model.{Props}
use fluxterm.Sessions.Events.{should_auto_reconnect}

-- The delay before the next attempt after a power-off, when so many were made.
abbrev pub wait_after_poweroff : ℕ → ℕ
wait_after_poweroff zero = 20_000
wait_after_poweroff (suc zero) = 30_000
wait_after_poweroff (suc (suc zero)) = 45_000
wait_after_poweroff (suc (suc (suc zero))) = 60_000
wait_after_poweroff (suc (suc (suc (suc k)))) = 90_000

abbrev pub wait_after_reboot : ℕ → ℕ
wait_after_reboot zero = 10_000
wait_after_reboot (suc zero) = 20_000
wait_after_reboot (suc (suc zero)) = 30_000
wait_after_reboot (suc (suc (suc zero))) = 45_000
wait_after_reboot (suc (suc (suc (suc k)))) = 60_000

-- The delay before a session that has ended is reconnected by itself, if it is.
abbrev pub retry_delay : Props → DisconnectReason → ℕ → Option ℕ
retry_delay props exit made = none
retry_delay props poweroff made =
    if props.auto_reconnect_on_poweroff then some (wait_after_poweroff made) else none
retry_delay props reboot made =
    if props.auto_reconnect_on_reboot then some (wait_after_reboot made) else none
retry_delay props network made = none
retry_delay props unknown made = none

last_place : (k : ℕ) → min (suc (suc (suc (suc k))) + 1 - 1) 4 ≡ 4
last_place k = omega arith

not_first : (k : ℕ) → eqb (suc (suc (suc (suc k))) + 1) 0 ≡ false
not_first k = ground arith

poweroff_delay :
    (made : ℕ) → compute_reconnect_delay_ms poweroff (made + 1) ≡ some (wait_after_poweroff made)
unfolding compute_reconnect_delay_ms
poweroff_delay zero = refl
poweroff_delay (suc zero) = refl
poweroff_delay (suc (suc zero)) = refl
poweroff_delay (suc (suc (suc zero))) = refl
poweroff_delay (suc (suc (suc (suc k)))) =
    rw (last_place k, compute_reconnect_delay_ms, not_first k) refl

reboot_delay :
    (made : ℕ) → compute_reconnect_delay_ms reboot (made + 1) ≡ some (wait_after_reboot made)
unfolding compute_reconnect_delay_ms
reboot_delay zero = refl
reboot_delay (suc zero) = refl
reboot_delay (suc (suc zero)) = refl
reboot_delay (suc (suc (suc zero))) = refl
reboot_delay (suc (suc (suc (suc k)))) =
    rw (last_place k, compute_reconnect_delay_ms, not_first k) refl

pub planned :
    (props : Props) (reason : DisconnectReason) (made : ℕ)
    → (if should_auto_reconnect props reason
        then compute_reconnect_delay_ms reason (made + 1)
        else none)
      ≡ retry_delay props reason made
unfolding should_auto_reconnect
planned props exit made = refl
planned props poweroff made = rw poweroff_delay refl
planned props reboot made = rw reboot_delay refl
planned props network made = refl
planned props unknown made = refl
