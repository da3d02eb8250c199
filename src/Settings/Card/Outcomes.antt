-- ===== src/Settings/Card/Outcomes.antt =====
-- How saving a field's configuration and deleting its data end.
use telemetryhub.Common.{
  String, [], ◌∷◌, true, false, ◌≡◌, arith, ◌⊎◌, inl, inr, Option, none, some, Option-cases,
}
use telemetryhub.Api.Types.{FieldRename}
use telemetryhub.Api.Calls.{Call}
use telemetryhub.Api.Replies.{Result, ok, err, settle, Result-cases}
use telemetryhub.Handler.{
  Env, Log, run, called, asked, alerted, changed_renames, changed_fields, events,
}
use telemetryhub.Settings.Card.{Card, handle_delete, delete_question}

module _ (device_id field : String) (rename : Option FieldRename) (env : Env Card) (s : Card) where
  -- The logs when the user is asked, when the data are deleted, and when the configuration is.
  abbrev pub asking : Log Card
  asking = (asked (delete_question device_id field rename), s) ∷ []

  abbrev pub log_field : Log Card
  log_field =
      (called (Call.delete_device_field device_id field), record s { is_deleting = true }) ∷ asking

  abbrev pub log_rename : Log Card
  log_rename =
      (
        called (Call.delete_rename device_id field),
        env.meanwhile log_field (record s { is_deleting = true }),
      )
      ∷ log_field

  abbrev pub field_deleted : Result (Unit {0})
  field_deleted =
      settle (Call.delete_device_field device_id field)
        (env.reply log_field (Call.delete_device_field device_id field))

  abbrev pub rename_deleted : Result (Unit {0})
  rename_deleted =
      settle (Call.delete_rename device_id field)
        (env.reply log_rename (Call.delete_rename device_id field))

  -- After the user agreed the field's data are deleted first, then its configuration if it has one
  -- and the first succeeded. If all that is done succeeds, both lists are fetched again, else the user
  -- is told. In the end the button is enabled.
  pub handle_delete_lem :
      env.consent asking ≡ true
      → let w = run (handle_delete device_id field rename) env s in
        (w.state.is_deleting ≡ false)
        × (((m : String) × (field_deleted ≡ err m)
              × (events w.log ≡ alerted "Failed to delete field" ∷ events log_field))
            ⊎ ((field_deleted ≡ ok tt)
                × (rename ≡ none)
                × (events w.log ≡ changed_fields ∷ changed_renames ∷ events log_field))
            ⊎ ((r : FieldRename) × (field_deleted ≡ ok tt)
                × (rename ≡ some r)
                × (((rename_deleted ≡ ok tt)
                      × (events w.log ≡ changed_fields ∷ changed_renames ∷ events log_rename))
                    ⊎ ((m : String) × (rename_deleted ≡ err m)
                        × (events w.log ≡ alerted "Failed to delete field" ∷ events log_rename)))))
  unfolding handle_delete events
  handle_delete_lem agreed = elim (Result-cases field_deleted) [
    | inr (m, e) ↦ elim (Option-cases rename) [
      | inl bare ↦ (ground arith, inl (m, e, ground arith))
      | inr (r, configured) ↦ (ground arith, inl (m, e, ground arith))
    ]
    | inl (a, e) ↦ elim (Option-cases rename) [
      | inl bare ↦ (ground arith, inr (inl (ground arith, bare, ground arith)))
      | inr (r, configured) ↦ elim (Result-cases rename_deleted) [
        | inl (b, f) ↦ (
          ground arith,
          inr (inr (r, ground arith, configured, inl (ground arith, ground arith))),
        )
        | inr (m, f) ↦
            (ground arith, inr (inr (r, ground arith, configured, inr (m, f, ground arith))))
      ]
    ]
  ]
