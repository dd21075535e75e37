-- ===== src/Sftp/Tests.antt =====
-- The theorem on transfers at a run: a transfer is reported twice and ends, while another session
-- has one of the same id.
use Prim.Native.String
use fluxterm.Base.{ℕ, String, ◌≡◌, refl, none, some, [], ◌∷◌}
use fluxterm.Base.Dict.{Dict, get}
use fluxterm.Sftp.Transfers.{
  SftpProgress, RunningSftpTransfer, sync_running_sftp_transfer, sync_all, sync_all_lem,
}

abbrev key : String → String → String
key session_id transfer_id = String.◌++◌ session_id (String.◌++◌ "/" transfer_id)

abbrev report : String → SftpProgress ℕ
report session_id = record {
  session_id = session_id;
  transfer_id = "1";
  status = "running";
  details = 0;
}

abbrev transfers : Dict (RunningSftpTransfer ℕ)
transfers =
    ("a/1", record { progress = report "a"; started_at = 5 })
    ∷ ("b/1", record { progress = report "b"; started_at = 6 })
    ∷ []

abbrev done : SftpProgress ℕ
done = record { session_id = "c"; transfer_id = "1"; status = "success"; details = 9 }

abbrev half : SftpProgress ℕ
half = record { session_id = "c"; transfer_id = "1"; status = "running"; details = 5 }

sync_all_lem_example :
    let running = sync_all key transfers ((report "c", 7) ∷ (half, 8) ∷ []) in
    let ended = sync_running_sftp_transfer key running done 9 in
    (get running "c/1" ≡ some (record { progress = half; started_at = 7 }))
    × (get running "b/1" ≡ get transfers "b/1")
    × (get ended "c/1" ≡ none)
    × (get ended "b/1" ≡ get transfers "b/1")
unfolding get
sync_all_lem_example =
    sync_all_lem key transfers (report "c") 7 ((half, 8) ∷ []) done 9 "c/1" "b/1" refl
      (refl, refl, (refl, refl, tt)) refl refl refl
