-- ===== src/Sftp/Transfers.antt =====
-- The set of running transfers of src/features/sftp/core/transferState.ts. The text that
-- JSON.stringify makes of a session id and a transfer id is a parameter, and the fields of a
-- progress that are not read are of a type `D`.
use fluxterm.Base.{
  ◌∙◌, ℕ, String, false, ◌==◌, ◌≡◌, Option, none, some, if◌then◌else◌, refl, is_some, true, List,
  [], ◌∷◌,
}
use fluxterm.Base.Dict.{Dict, get, put, delete, get-put, get-delete, get-put_self, get-delete_self}

pub record SftpProgress (D : Type 0) : Type 0 where
  pub session_id : String
  pub transfer_id : String
  pub status : String
  pub details : D

pub record RunningSftpTransfer (D : Type 0) : Type 0 where
  pub progress : SftpProgress D
  pub started_at : ℕ

-- `current?.startedAt ?? now`
abbrev pub start_of : {D : Type 0} → Option (RunningSftpTransfer D) → ℕ → ℕ
start_of none now = now
start_of (some current) now = current.started_at

module _ {D : Type 0} (get_sftp_transfer_key : String → String → String) where
  unfoldable pub sync_running_sftp_transfer :
      Dict (RunningSftpTransfer D) → SftpProgress D → ℕ → Dict (RunningSftpTransfer D)
  sync_running_sftp_transfer previous progress now =
      let transfer_key = get_sftp_transfer_key progress.session_id progress.transfer_id in
      if progress.status == "running"
      then put previous transfer_key
          (record { progress = progress; started_at = start_of (get previous transfer_key) now })
      else if is_some (get previous transfer_key)
      then delete previous transfer_key
      else previous

  -- Reports, one after the other, each with its time.
  unfoldable pub sync_all :
      Dict (RunningSftpTransfer D) → List (SftpProgress D × ℕ) → Dict (RunningSftpTransfer D)
  sync_all transfers [] = transfers
  sync_all transfers ((progress, now) ∷ reports) =
      sync_all (sync_running_sftp_transfer transfers progress now) reports

  -- Reports that the transfer with this key runs.
  abbrev pub AreRunning : String → List (SftpProgress D × ℕ) → Type 0
  AreRunning key [] = Unit
  AreRunning key ((progress, now) ∷ reports) =
      ((progress.status == "running") ≡ true)
      × (get_sftp_transfer_key progress.session_id progress.transfer_id ≡ key)
      × AreRunning key reports

  abbrev pub last_progress : SftpProgress D → List (SftpProgress D × ℕ) → SftpProgress D
  last_progress progress [] = progress
  last_progress progress ((later, now) ∷ reports) = last_progress later reports

  runs_on :
      (transfers : Dict (RunningSftpTransfer D)) (reports : List (SftpProgress D × ℕ))
      (key other_key : String) (current : RunningSftpTransfer D)
      → get transfers key ≡ some current
      → (key == other_key) ≡ false
      → AreRunning key reports
      → (get (sync_all transfers reports) key
          ≡ some (record {
            progress = last_progress current.progress reports;
            started_at = current.started_at;
          }))
        × (get (sync_all transfers reports) other_key ≡ get transfers other_key)
  unfolding sync_all sync_running_sftp_transfer
  runs_on transfers [] key other_key current there apart running = (there, refl)
  runs_on transfers ((progress, now) ∷ reports) key other_key current there apart
        (runs, own, running) =
      let next : RunningSftpTransfer D = record {
        progress = progress;
        started_at = current.started_at;
      } in
      let (known, others) =
        runs_on (put transfers key next) reports key other_key next
          (get-put_self transfers key next) apart running in
      rw (runs, own, there) (known, others ∙ get-put transfers key other_key next ∙ rw apart refl)

  -- A transfer of which nothing is known is reported to run, once or more often: what is known of
  -- it then is the last of the reports, with the time of the first. A report that it does not run
  -- any more leaves nothing of it. What is known of a transfer with another key stays all the
  -- while.
  pub sync_all_lem :
      (transfers : Dict (RunningSftpTransfer D)) (first : SftpProgress D) (start : ℕ)
      (reports : List (SftpProgress D × ℕ)) (last : SftpProgress D) (end : ℕ)
      (key other_key : String)
      → get transfers key ≡ none
      → AreRunning key ((first, start) ∷ reports)
      → get_sftp_transfer_key last.session_id last.transfer_id ≡ key
      → (last.status == "running") ≡ false
      → (key == other_key) ≡ false
      → let running = sync_all transfers ((first, start) ∷ reports) in
        let ended = sync_running_sftp_transfer running last end in
        (get running key
          ≡ some (record { progress = last_progress first reports; started_at = start }))
        × (get running other_key ≡ get transfers other_key)
        × (get ended key ≡ none)
        × (get ended other_key ≡ get transfers other_key)
  unfolding sync_all sync_running_sftp_transfer
  sync_all_lem transfers first start reports last end key other_key missing (runs, own, running)
        own_last stops apart =
      let next : RunningSftpTransfer D = record { progress = first; started_at = start } in
      let begun = put transfers key next in
      let (known, others) =
        runs_on begun reports key other_key next (get-put_self transfers key next) apart running in
      let stay = others ∙ get-put transfers key other_key next ∙ rw apart refl in
      let after = sync_all begun reports in
      rw (runs, own, missing, own_last, stops, known)
        (refl, stay, get-delete_self after key, get-delete after key other_key ∙ rw apart stay)
