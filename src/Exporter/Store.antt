-- ===== src/Exporter/Store.antt =====
-- What a look-up finds in the store of samples after writes and removals.
use media_stack.Common.{
  List, Option, Text, [], ap, if◌then◌else◌, lookup, lookup-keep, lookup-put, none, not, refl, some,
  text_eq, ◌∙◌, ◌∷◌, ◌≡◌,
}
use media_stack.Exporter.{State, Value, Write, in_family, remove_family, sample, set, write_all}

-- The text of the sample that a write is about.
abbrev pub key_of : Write → Text
key_of w = sample w.0 w.1

-- The sample under `k` after the writes, when it was `o` before.
abbrev pub latest : Text → List Write → Option Value → Option Value
latest k [] o = o
latest k (w ∷ ws) o = latest k ws (if text_eq (key_of w) k then some w.2 else o)

pub lookup-write_all :
    (k : Text) (ws : List Write) (s : State)
    → lookup k (write_all ws s).samples ≡ latest k ws (lookup k s.samples)
unfolding write_all set
lookup-write_all k [] s = refl
lookup-write_all k (w ∷ ws) s =
    lookup-write_all k ws (set w.0 w.1 w.2 s)
    ∙ ap (latest k ws) (lookup-put (key_of w) k w.2 s.samples)

-- What a removal leaves of the sample under `k`.
abbrev pub left : (name k : Text) → Option Value → Option Value
left name k o = if not (in_family name k) then o else none

pub lookup-remove_family :
    (k name : Text) (s : State)
    → lookup k (remove_family name s).samples ≡ left name k (lookup k s.samples)
unfolding remove_family
lookup-remove_family k name s = lookup-keep (λ key. not (in_family name key)) k s.samples

pub config-write_all : (ws : List Write) (s : State) → (write_all ws s).last_config ≡ s.last_config
unfolding write_all set
config-write_all [] s = refl
config-write_all (w ∷ ws) s = config-write_all ws (set w.0 w.1 w.2 s)
