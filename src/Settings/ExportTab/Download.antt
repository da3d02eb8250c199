-- ===== src/Settings/ExportTab/Download.antt =====
-- When the export may be downloaded and how a download ends.
use telemetryhub.Common.{
  String, [], ◌∷◌, true, ◌≡◌, arith, ◌⊎◌, inl, inr, Option, none, some, Option-cases, ◌≢◌,
}
use telemetryhub.Common.Int.{ℤ, ◌<ℤ◌}
use telemetryhub.Api.Types.{Format, Blob}
use telemetryhub.Api.Calls.{Call}
use telemetryhub.Api.Replies.{ok, err, settle, Result-cases}
use telemetryhub.Handler.{Env, run, called, saved, events}
use telemetryhub.Settings.ExportTab.{Tab, range_valid, can_download, handle_download, download_name}

module _ (time_of : String → Option ℤ) (to_iso : ℤ → String) where
  range_valid_sound :
      (s : Tab)
      → range_valid time_of to_iso s ≡ true
      → (a : ℤ) × (b : ℤ) × (time_of s.from ≡ some a) × (time_of s.to ≡ some b) × (a <ℤ b)
  unfolding range_valid
  range_valid_sound s h = elim (Option-cases (time_of s.from)) [
    | inl e ↦ absurd (ground arith)
    | inr (a, ea) ↦ elim (Option-cases (time_of s.to)) [
      | inl e ↦ absurd (ground arith)
      | inr (b, eb) ↦ (a, b, ea, eb, ground arith)
    ]
  ]

  -- With an enabled button the download asks for the selected fields, of which there is one, from
  -- an earlier time to a later one, in one call. If that succeeds the file is saved under the
  -- built name, else its message is shown and nothing is saved. In the end no download is
  -- pending.
  pub handle_download_lem :
      (env : Env Tab) (device_id : String) (s : Tab) (format : Format)
      → can_download time_of to_iso s ≡ true
      → let w = run (handle_download time_of to_iso device_id s format) env s in
        (a : ℤ) × (b : ℤ) × (a <ℤ b)
        × (s.selected ≢ [])
        × (let c = Call.export_device_data device_id s.selected (to_iso a) (to_iso b) format in
            let answer = settle c (
              env.reply
                ((called c, record s { error = none; downloading = some format }) ∷ [])
                c) in
            (w.state.downloading ≡ none)
            × (((blob : Blob) × (answer ≡ ok blob)
                  × (events w.log
                      ≡ saved
                          (download_name time_of to_iso device_id (to_iso a) (to_iso b) format)
                          blob
                        ∷ called c
                        ∷ []))
                ⊎ ((m : String) × (answer ≡ err m)
                    × (events w.log ≡ called c ∷ [])
                    × (w.state.error ≡ some m))))
  unfolding handle_download can_download events
  handle_download_lem env device_id s format h =
      let (a, b, ea, eb, lt) = range_valid_sound s (ground arith) in
      let c = Call.export_device_data device_id s.selected (to_iso a) (to_iso b) format in
      let busy : Tab = record s { error = none; downloading = some format } in
      elim (Result-cases (settle c (env.reply ((called c, busy) ∷ []) c))) [
        | inl (blob, e) ↦ (a, b, lt, ground arith, (ground arith, inl (blob, e, ground arith)))
        | inr (m, e) ↦
            (a, b, lt, ground arith, (ground arith, inr (m, e, ground arith, ground arith)))
      ]
