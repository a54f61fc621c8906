-- ===== src/Exporter.antt =====
-- nzbdav-exporter/exporter.py: the store of samples, and what one scrape writes to it. The answers
-- of NzbDAV, floats and the lower case of a text are parameters. The help texts, and the type that
-- is always `gauge`, are left out: of `_metric_help` the model keeps the registered names.
pub mod Answers
pub mod Scrape
mod Server
mod Labels
mod Store
mod Status
mod Health
mod Examples
use media_stack.Common.{
  Bool, List, Option, Text, [], codes, if◌then◌else◌, keep, map, mem_text, not, one_if, put,
  starts_with, text_eq, ℕ, ◌++◌, ◌==◌, ◌||◌, ◌∷◌,
}

abbrev pub Labels : Type 0
Labels = List (Text × Text)

-- `t.replace(c, w)`, for one character.
unfoldable pub replace : ℕ → Text → Text → Text
replace c w [] = []
replace c w (a ∷ t) = let rest = replace c w t in if a == c then w ++ rest else a ∷ rest

-- The three replacements: the backslash, the newline, and the quote.
unfoldable pub escape : Text → Text
unfolding replace
escape value =
    replace 34 (92 ∷ 34 ∷ []) (replace 10 (92 ∷ 110 ∷ []) (replace 92 (92 ∷ 92 ∷ []) value))

unfoldable pub label : Text × Text → Text
unfolding escape
label l = l.0 ++ (61 ∷ 34 ∷ escape l.1) ++ 34 ∷ []

unfoldable pub more_labels : Labels → Text
unfolding label
more_labels [] = codes "}"
more_labels (l ∷ ls) = 44 ∷ label l ++ more_labels ls

-- `_labels`, on the labels in the order of `sorted`.
unfoldable pub labels_text : Labels → Text
unfolding more_labels
labels_text [] = []
labels_text (l ∷ ls) = 123 ∷ label l ++ more_labels ls

unfoldable pub sample : Text → Labels → Text
unfolding labels_text
sample name labels = name ++ labels_text labels

-- What the text of a sample's value shows.
pub data Value : Type 0 where
  elapsed : Value
  number : ℕ → Value
  ratio : (part whole : ℕ) → Value
  scalar : Option Text → Value

abbrev pub flag : Bool → Value
flag b = number (one_if b)

abbrev pub Samples : Type 0
Samples = List (Text × Value)

-- The value of a key whose value is null is `some none`.
abbrev pub Config : Type 0
Config = List (Text × Option Text)

pub record State : Type 0 where
  pub samples : Samples
  pub names : List Text
  pub last_config : Config

unfoldable pub register : Text → List Text → List Text
unfolding mem_text
register name names = if mem_text name names then names else names ++ name ∷ []

-- `_set`
unfoldable pub set : Text → Labels → Value → State → State
unfolding register put sample
set name labels value s = record {
  samples = put (sample name labels) value s.samples;
  names = register name s.names;
  last_config = s.last_config;
}

-- `key == name or key.startswith(name + "{")`
unfoldable pub in_family : Text → Text → Bool
unfolding text_eq starts_with
in_family name key = text_eq key name || starts_with key (name ++ 123 ∷ [])

-- `_remove_family`
unfoldable pub remove_family : Text → State → State
unfolding keep in_family
remove_family name s = record {
  samples = keep (λ e. not (in_family name e.0)) s.samples;
  names = s.names;
  last_config = s.last_config;
}

abbrev pub Write : Type 0
Write = Text × Labels × Value

-- Calls of `_set`, one after the other.
unfoldable pub write_all : List Write → State → State
unfolding set
write_all [] s = s
write_all (w ∷ ws) s = write_all ws (set w.0 w.1 w.2 s)

-- A line of `render_metrics`.
pub data Line : Type 0 where
  about : (name : Text) → Line
  shown : (key : Text) (value : Value) → Line

-- `render_metrics`: for each name its comments, then its family's samples.
unfoldable pub render : State → List Text → List Line
unfolding keep in_family
render s [] = []
render s (name ∷ names) =
    (about name ∷ map (λ e. shown e.0 e.1) (keep (λ e. in_family name e.0) s.samples))
    ++ render s names

unfoldable pub render_metrics : State → List Line
unfolding render
render_metrics s = render s s.names
