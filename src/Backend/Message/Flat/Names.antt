-- ===== src/Backend/Message/Flat/Names.antt =====
-- The names that the readings of a payload get, and the keys that are not read.
use Prim.Native.String
use telemetryhub.Common.{
  String, List, [], ◌∷◌, false, string_eq, ◌≡◌, ◌≢◌, ◌↔◌, sym, ap, ◌∙◌, refl, arith,
}
use package.text.Mathlib.TextEquality.{eq_iff}
use package.text.Mathlib.TextLemmas.{append-nil, append_assoc, cons-append}
use telemetryhub.Js.Text.{text, is_empty}
use telemetryhub.Js.Map.{includes}
use telemetryhub.Backend.Message.{skip_prefixes, below}

-- The name of a path of keys, below a prefix.
unfoldable pub dotted : String → List String → String
unfolding below
dotted prefix [] = prefix
dotted prefix (k ∷ path) = dotted (below prefix k) path

-- The last key of a path.
unfoldable pub last_key : String → List String → String
last_key parent [] = parent
last_key parent (k ∷ path) = last_key k path

-- What follows the first key in the name of a path: each further key after a dot.
unfoldable pub followed : List String → String
followed [] = ""
followed (k ∷ path) = String.◌++◌ "." (String.◌++◌ k (followed path))

-- The name of a path: its keys joined by dots, without the empty keys that it begins with.
unfoldable pub path_name : List String → String
unfolding followed
path_name [] = ""
path_name (String.[] ∷ path) = path_name path
path_name (String.◌∷◌ c k ∷ path) = String.◌++◌ (String.◌∷◌ c k) (followed path)

-- No value is read under these keys.
abbrev pub IsRead : String → Type 0
IsRead k = (k ≢ "src") × (k ≢ "dst") × (k ≢ "method") × (k ≢ "id") × (k ≢ "ts") × (k ≢ "time")

pub includes-skip_prefixes : (k : String) → (includes skip_prefixes k ≡ false) ↔ IsRead k
unfolding includes
includes-skip_prefixes k = (
  λ h. ground (
    arith,
    eq_iff "src" k,
    eq_iff "dst" k,
    eq_iff "method" k,
    eq_iff "id" k,
    eq_iff "ts" k,
    eq_iff "time" k,
  ),
  λ h. ground (
    arith,
    eq_iff "src" k,
    eq_iff "dst" k,
    eq_iff "method" k,
    eq_iff "id" k,
    eq_iff "ts" k,
    eq_iff "time" k,
  ),
)

is_empty-append : (s t : String) → is_empty s ≡ false → is_empty (String.◌++◌ s t) ≡ false
is_empty-append String.[] t h = absurd (ground arith)
is_empty-append (String.◌∷◌ c s) t h = ap is_empty (cons-append c s t)

below_filled :
    (prefix k : String)
    → is_empty prefix ≡ false
    → below prefix k ≡ String.◌++◌ prefix (String.◌++◌ "." k)
unfolding below text
below_filled String.[] k h = absurd (ground arith)
below_filled (String.◌∷◌ c s) k h = simp (append_assoc, append-nil)

-- Below a prefix that is not empty every key follows after a dot.
dotted-followed :
    (prefix : String) (path : List String)
    → is_empty prefix ≡ false
    → dotted prefix path ≡ String.◌++◌ prefix (followed path)
unfolding dotted followed
dotted-followed prefix [] h = sym (append-nil prefix)
dotted-followed prefix (k ∷ path) h =
    ap (λ p. dotted p path) (below_filled prefix k h)
    ∙ dotted-followed (String.◌++◌ prefix (String.◌++◌ "." k)) path (is_empty-append prefix _ h)
    ∙ simp (append_assoc)

pub dotted-path_name : (path : List String) → dotted "" path ≡ path_name path
unfolding dotted path_name below
dotted-path_name [] = refl
dotted-path_name (String.[] ∷ path) = dotted-path_name path
dotted-path_name (String.◌∷◌ c k ∷ path) = dotted-followed (String.◌∷◌ c k) path refl
