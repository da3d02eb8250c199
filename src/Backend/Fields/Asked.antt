-- ===== src/Backend/Fields/Asked.antt =====
-- That the server asks its store for the fields that the page selected.
use Prim.Native.String
use package.text.Mathlib.TextLemmas.{cons-append, nil-append}
use telemetryhub.Common.{String, List, [], ◌∷◌, Option, some, false, filter, ◌≡◌, refl, arith, All}
use telemetryhub.Js.Text.{is_empty, join}
use telemetryhub.Js.Text.Split.{Avoids}
use telemetryhub.Api.Replies.{Result, ok}
use telemetryhub.Backend.Access.{respond}
use telemetryhub.Backend.Fields.{split_string, split_fields, time_or, get_readings}

-- A name that is not empty and has no comma.
abbrev pub Plain : String → Type 0
Plain f = (is_empty f ≡ false) × Avoids b',' f

split_string-plain : (f : String) → Avoids b',' f → split_string f ≡ f ∷ []
unfolding split_string
split_string-plain String.[] h = refl
split_string-plain (String.◌∷◌ c f) h = ground (arith, split_string-plain f h.1)

split_string-comma :
    (f rest : String)
    → Avoids b',' f
    → split_string (String.◌++◌ f (String.◌++◌ "," rest)) ≡ f ∷ split_string rest
unfolding split_string
split_string-comma String.[] rest h =
    rw (nil-append (String.◌++◌ "," rest), cons-append "," "" rest, nil-append rest) refl
split_string-comma (String.◌∷◌ c f) rest h =
    rw (cons-append c f (String.◌++◌ "," rest)) (ground (arith, split_string-comma f rest h.1))

split_fields-join :
    (fields : List String) → All Plain fields → split_fields (join "," fields) ≡ fields
unfolding split_fields join filter split_string
split_fields-join [] h = refl
split_fields-join (f ∷ []) h = ground (arith, split_string-plain f h.0.1)
split_fields-join (f ∷ g ∷ fields) h =
    ground (
      arith,
      split_string-comma f (join "," (g ∷ fields)) h.0.1,
      split_fields-join (g ∷ fields) h.1,
    )

-- A text that begins with a plain name is not empty.
join-filled : (f : String) (fs : List String) → Plain f → is_empty (join "," (f ∷ fs)) ≡ false
unfolding join
join-filled f [] h = h.0
join-filled String.[] (g ∷ fs) h = absurd (ground arith)
join-filled (String.◌∷◌ c f) (g ∷ fs) h = rw (cons-append c f _) refl

-- If the fields that the frontend joins have names that are not empty and have no comma, the times are read and the
-- store finds readings, then the server asks its store for exactly these fields, and responds with what it found.
pub get_readings-join :
    {T R : Type 0} (parse_time : String → Option T) (day_ago now t u : T)
    (store : String → List String → T → T → Result (List R)) (device_id f : String)
    (fs : List String) (from to : String) (found : List R)
    → All Plain (f ∷ fs)
    → time_or parse_time day_ago from ≡ some t
    → time_or parse_time now to ≡ some u
    → store device_id (f ∷ fs) t u ≡ ok found
    → get_readings parse_time day_ago now store device_id (join "," (f ∷ fs)) from to
      ≡ respond 200
          (record { device_id = device_id; fields = f ∷ fs; from = t; to = u; readings = found })
unfolding get_readings
get_readings-join parse_time day_ago now t u store device_id f fs from to found plain at_from at_to
      given =
    let filled = join-filled f fs plain.0 in
    let listed = split_fields-join (f ∷ fs) plain in ground (arith, filled, listed)
