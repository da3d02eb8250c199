-- ===== src/DevicePage/Markup/Plots.antt =====
-- Which fields the charts of the page plot.
use mathlib.Core.List.Perm
use mathlib.Core.List.{Perm, append_assoc}
use telemetryhub.Common.{
  length, ℕ, suc, String, List, [], ◌∷◌, ◌++◌, Option, none, some, Bool, true, false, ◌≡◌, refl, ap,
  ◌≢◌, sym,
}
use telemetryhub.Common.Int.{ℤ}
use telemetryhub.Common.Perms.{flat_map}
use telemetryhub.Js.Sort.{Sign}
use telemetryhub.Api.Types.{Device, FieldRename, ReadingData}
use telemetryhub.Ui.{Widget, button, child, when}
use telemetryhub.DevicePage.State.{Page, selected_fields, last_updated}
use telemetryhub.DevicePage.ChartGroups.{ChartGroup, ChartGroups, SubGroup, chart_groups}
use telemetryhub.DevicePage.ChartGroups.Partition.{
  sub_group_fields, group_fields, chart_groups-perm,
}
use telemetryhub.DevicePage.Markup.{
  Element, Action, group_chart, field_chart, sub_charts, solo_charts, group_charts,
  ungrouped_charts, charts_section, charts, controls, above_charts, page, settings, info_row,
  last_data, reset_all,
}

-- The fields that an element plots, and those that a view plots, in the order of the document.
abbrev pub plot : Widget Action Element → List String
plot (child (group_chart n s d e fields)) = fields
plot (child (field_chart f i n u)) = f ∷ []
plot _ = []

abbrev pub plotted : List (Widget Action Element) → List String
plotted ws = flat_map plot ws

plotted-append :
    (vs ws : List (Widget Action Element)) → plotted (vs ++ ws) ≡ plotted vs ++ plotted ws
plotted-append [] ws = refl
plotted-append (v ∷ vs) ws =
    rw (plotted-append vs ws) (sym (append_assoc (plot v) (plotted vs) (plotted ws)))

plotted-sub_charts :
    (g : ChartGroup) (ss : List SubGroup) → plotted (sub_charts g ss) ≡ flat_map sub_group_fields ss
unfolding sub_charts
plotted-sub_charts g [] = refl
plotted-sub_charts g (s ∷ ss) = ap (λ r. s.fields ++ r) (plotted-sub_charts g ss)

module _ (renames : List FieldRename) where
  plotted-solo_charts :
      (selected : List String) (name : String) (fs : List String)
      → plotted (solo_charts renames selected name fs) ≡ fs
  unfolding solo_charts
  plotted-solo_charts selected name [] = refl
  plotted-solo_charts selected name (f ∷ fs) =
      ap (λ r. f ∷ r) (plotted-solo_charts selected name fs)

  plotted-ungrouped_charts :
      (i : ℕ) (fs : List String) → plotted (ungrouped_charts renames i fs) ≡ fs
  unfolding ungrouped_charts
  plotted-ungrouped_charts i [] = refl
  plotted-ungrouped_charts i (f ∷ fs) = ap (λ r. f ∷ r) (plotted-ungrouped_charts (suc i) fs)

  plotted-group_charts :
      (selected : List String) (gs : List ChartGroup)
      → plotted (group_charts renames selected gs) ≡ flat_map group_fields gs
  unfolding group_charts
  plotted-group_charts selected [] = refl
  plotted-group_charts selected (g ∷ gs) =
      rw
        (
          plotted-append
              (sub_charts g g.sub_groups ++ solo_charts renames selected g.group_name g.solo_fields)
              (group_charts renames selected gs),
          plotted-append (sub_charts g g.sub_groups)
              (solo_charts renames selected g.group_name g.solo_fields),
          plotted-sub_charts g g.sub_groups,
          plotted-solo_charts selected g.group_name g.solo_fields,
          plotted-group_charts selected gs,
        )
        refl

  -- The section of the charts plots what the groups hold, which is the selection.
  plotted-charts_section :
      (selected : List String) (readings : List ReadingData) (cg : ChartGroups)
      → readings ≢ []
      → Perm (flat_map group_fields cg.groups ++ cg.ungrouped) selected
      → Perm (plotted (charts_section renames selected readings cg)) selected
  unfolding charts_section
  plotted-charts_section [] readings cg some_readings same = Perm.refl []
  plotted-charts_section (f ∷ fs) [] cg some_readings same = absurd (some_readings refl)
  plotted-charts_section (f ∷ fs) (r ∷ rs) cg some_readings same =
      rw
        (
          plotted-append (group_charts renames (f ∷ fs) cg.groups)
              (ungrouped_charts renames 0 cg.ungrouped),
          plotted-group_charts (f ∷ fs) cg.groups,
          plotted-ungrouped_charts 0 cg.ungrouped,
        )
        same

  plotted-nothing :
      (readings : List ReadingData) (cg : ChartGroups)
      → plotted (charts_section renames [] readings cg) ≡ []
  unfolding charts_section
  plotted-nothing readings cg = refl

plotted-settings : (is_admin : Bool) (d : Option Device) → plotted (settings is_admin d) ≡ []
unfolding when
plotted-settings is_admin none = refl
plotted-settings true (some d) = refl
plotted-settings false (some d) = refl

plotted-info_row : (d : Option Device) (n : ℕ) → plotted (info_row d n) ≡ []
plotted-info_row none n = refl
plotted-info_row (some d) n = refl

selected_fields_unread : (p : Page) → p.fields_hydrated ≡ false → selected_fields p ≡ []
unfolding selected_fields
selected_fields_unread p unread = rw unread refl

module _ (locale_compare : String → String → Sign) (time_of : String → Option ℤ)
    (show_time : ℤ → String) (device_id time_range : String) where
  plotted-last :
      (t : Option ℤ)
      → plotted (
          last_data locale_compare time_of show_time device_id time_range t
          ++ button "Reset All" false reset_all ∷ [])
        ≡ []
  plotted-last none = refl
  plotted-last (some t) = refl

  charts-perm :
      (renames : List FieldRename) (selected : List String) (readings : List ReadingData)
      (hydrated : Bool)
      → (hydrated ≡ false → selected ≡ [])
      → readings ≢ []
      → Perm
          (plotted (
            charts_section renames selected readings
              (chart_groups locale_compare hydrated selected renames)))
          selected
  charts-perm renames selected readings true unread some_readings =
      plotted-charts_section renames selected readings _ some_readings
        (chart_groups-perm locale_compare selected renames)
  charts-perm renames selected readings false unread some_readings =
      rw (unread refl, plotted-nothing renames readings _) (Perm.refl [])

  plotted-above_charts :
      (is_admin : Bool) (p : Page)
      → plotted (above_charts locale_compare time_of show_time device_id time_range is_admin p) ≡ []
  unfolding above_charts controls
  plotted-above_charts is_admin p =
      rw
        (
          plotted-append (settings is_admin p.device ++ info_row p.device (length p.fields)) _,
          plotted-append (settings is_admin p.device) (info_row p.device (length p.fields)),
          plotted-settings is_admin p.device,
          plotted-info_row p.device (length p.fields),
        )
        (plotted-last (last_updated time_of p))

  plotted-charts :
      (p : Page)
      → p.readings ≢ []
      → Perm
          (plotted (charts locale_compare time_of show_time device_id time_range p))
          (selected_fields p)
  unfolding charts
  plotted-charts p some_readings =
      charts-perm p.renames (selected_fields p) p.readings p.fields_hydrated
        (selected_fields_unread p) some_readings

  -- A page that has readings plots each selected field on exactly one chart, whatever the
  -- configurations of the fields are.
  pub page_plots_selection :
      (is_admin : Bool) (p : Page)
      → p.readings ≢ []
      → Perm
          (plotted
            (page locale_compare time_of show_time device_id time_range false true is_admin p))
          (selected_fields p)
  unfolding page
  page_plots_selection is_admin p some_readings =
      rw
        (
          plotted-append
              (above_charts locale_compare time_of show_time device_id time_range is_admin p) _,
          plotted-above_charts is_admin p,
        )
        (plotted-charts p some_readings)
