-- ===== src/DevicePage/Chart/Options.antt =====
-- The options that `FieldChart` and `GroupChart` of frontend/src/app/dashboard/[deviceId]/page.tsx give to the
-- chart library, less the callbacks of the tooltips, and `useIsMobile`, on which they depend. The media query of the
-- window is a Boolean value.
use telemetryhub.Common.{
  ℕ, String, Option, none, some, Bool, true, false, not, if◌then◌else◌, ◌≡◌, refl, arith,
}
use telemetryhub.Js.Text.{is_empty}

-- `useIsMobile` in a window: its state, whether its listener is there, and whether the query matches.
pub record Screen : Type 0 where
  pub is_mobile : Bool
  pub listening : Bool
  pub matches : Bool

-- The first render.
unfoldable pub first : Bool → Screen
first matches = record { is_mobile = false; listening = false; matches = matches }

-- The effect, and its clean-up.
unfoldable pub mount : Screen → Screen
mount s = record s { is_mobile = s.matches; listening = true }

unfoldable pub unmount : Screen → Screen
unmount s = record s { listening = false }

-- The query changes, which calls `handler` if it listens.
unfoldable pub change : Bool → Screen → Screen
change now s = record s { matches = now; is_mobile = if s.listening then now else s.is_mobile }

pub data Reach : Screen → Type 0 where
  renders : (matches : Bool) → Reach (first matches)
  mounts : {s : Screen} → Reach s → Reach (mount s)
  changes : {s : Screen} (now : Bool) → Reach s → Reach (change now s)
  unmounts : {s : Screen} → Reach s → Reach (unmount s)

-- A chart that listens lays itself out for the window as it is.
Reach-matches : {s : Screen} → Reach s → s.listening ≡ true → s.is_mobile ≡ s.matches
unfolding first mount unmount change
Reach-matches (renders matches) h = absurd (ground arith)
Reach-matches (mounts r) h = refl
Reach-matches (changes {s} now r) h = ground arith
Reach-matches (unmounts r) h = absurd (ground arith)

pub record AxisTitle : Type 0 where
  pub display : Bool
  pub text : String
  pub color : String
  pub font_size : ℕ

-- What is `none` is not given.
pub record Axis : Type 0 where
  pub grid_color : String
  pub ticks_color : String
  pub max_ticks_limit : ℕ
  pub max_rotation : Option ℕ
  pub auto_skip : Option Bool
  pub font_size : ℕ
  pub title : Option AxisTitle

pub record TimeFormat : Type 0 where
  pub tooltip_format : String
  pub hour : String
  pub day : String

pub record LegendLabels : Type 0 where
  pub color : String
  pub font_size : ℕ
  pub box_width : ℕ
  pub box_height : ℕ
  pub padding : ℕ
  pub use_point_style : Bool

pub record Legend : Type 0 where
  pub display : Bool
  pub position : Option String
  pub labels : Option LegendLabels

pub record Interaction : Type 0 where
  pub mode : String
  pub axis : String
  pub intersect : Bool

pub record Options : Type 0 where
  pub responsive : Bool
  pub maintain_aspect_ratio : Bool
  pub animation : Bool
  pub time : TimeFormat
  pub x : Axis
  pub y : Axis
  pub legend : Legend
  pub interaction : Interaction

abbrev slate : String
slate = "#94a3b8"

abbrev grid : String
grid = "rgba(255,255,255,0.05)"

module _ (is_mobile : Bool) where
  abbrev pub max_ticks : ℕ
  max_ticks = if is_mobile then 4 else 8

  abbrev pub font_size : ℕ
  font_size = if is_mobile then 10 else 12

  -- The title of an axis.
  abbrev titled : Bool → String → AxisTitle
  titled display text = record {
    display = display;
    text = text;
    color = slate;
    font_size = font_size;
  }

  -- The axes of both charts.
  unfoldable pub x_axis : Axis
  x_axis = record {
    grid_color = grid;
    ticks_color = slate;
    max_ticks_limit = max_ticks;
    max_rotation = some (if is_mobile then 45 else 0);
    auto_skip = some false;
    font_size = font_size;
    title = some (titled true "Time");
  }

  unfoldable pub y_axis : Option AxisTitle → Axis
  y_axis title = record {
    grid_color = grid;
    ticks_color = slate;
    max_ticks_limit = max_ticks;
    max_rotation = none;
    auto_skip = none;
    font_size = font_size;
    title = title;
  }

  -- What both charts have in common.
  unfoldable pub chart_options : Option AxisTitle → Legend → Options
  unfolding x_axis y_axis
  chart_options title legend = record {
    responsive = true;
    maintain_aspect_ratio = false;
    animation = false;
    time = record { tooltip_format = "PPpp"; hour = "HH:mm"; day = "MMM d" };
    x = x_axis;
    y = y_axis title;
    legend = legend;
    interaction = record { mode = "nearest"; axis = "x"; intersect = false };
  }

  -- The options of a `FieldChart`, for its unit.
  unfoldable pub field_options : String → Options
  unfolding chart_options
  field_options unit =
      chart_options (some (titled (not (is_empty unit)) unit))
        (record { display = false; position = none; labels = none })

  -- The options of a `GroupChart`, for `primaryUnit`.
  unfoldable pub group_options : String → Options
  unfolding chart_options
  group_options primary_unit =
      chart_options (if is_empty primary_unit then none else some (titled true primary_unit))
        (record {
          display = true;
          position = some "top";
          labels = some (record {
            color = slate;
            font_size = if is_mobile then 11 else 12;
            box_width = 7;
            box_height = 7;
            padding = 8;
            use_point_style = false;
          });
        })

  -- A unit is shown beside either chart exactly if there is one, in the size of the other labels.
  units_shown :
      (unit : String)
      → (((elim (field_options unit).y.title [ none ↦ false | some t ↦ t.display ])
          ≡ not (is_empty unit)))
        × ((elim (group_options unit).y.title [ none ↦ false | some t ↦ t.display ])
            ≡ not (is_empty unit))
  unfolding field_options group_options
  units_shown unit = ground arith
