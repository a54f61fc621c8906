-- ===== src/Badfiles/Failure.antt =====
-- When an exception ends the report of scripts/checkrr-badfiles-report.py.
use media_stack.Common.{
  Bool, List, Option, Text, [], any_of, false, keep, none, not, some, true, ◌&&◌, ◌||◌, ◌∷◌,
}
use media_stack.Badfiles.{Detail, Status, library_for}
use media_stack.Badfiles.Report.{Fetched, Row, crashed, has_key, is_dead}

pub is_missing : Option (List Row) → Bool
is_missing none = true
is_missing (some rows) = false

pub outside : Text → Bool
outside path = elim (library_for path) [ none ↦ true | some k ↦ false ]

-- A verdict that makes a path one of the dead ones.
pub is_flagged : (Text → Status × Detail) → (no_verify : Bool) → Text → Bool
is_flagged verify no_verify path = no_verify || is_dead (path, verify path)

-- An exception that `main` does not catch.
pub is_crash : Fetched → Bool
is_crash crashed = true
is_crash _ = false

abbrev pub has_any : List Text → Bool
has_any [] = false
has_any (x ∷ xs) = true

-- The dead files of the library with this key, for which its instance is asked.
pub asked_of : (Text → Status × Detail) → (no_verify : Bool) → Text → List Text → List Text
unfolding is_flagged
asked_of verify no_verify key paths =
    keep (λ p. is_flagged verify no_verify p && has_key key (library_for p)) paths

module _ (has_block : Text → Bool) (fetch : Text → List Text → Fetched) where
  -- The instance with this key is asked for these files, and that raises an exception.
  pub crashes_on : Text → List Text → Bool
  crashes_on key xs = has_block key && has_any xs && is_crash (fetch key xs)

  -- A known library and no library are both among the dead files.
  abbrev mixed : (Text → Status × Detail) → (no_verify : Bool) → List Text → Bool
  mixed verify no_verify paths =
      any_of (λ p. is_flagged verify no_verify p && outside p) paths
      && any_of (λ p. is_flagged verify no_verify p && not (outside p)) paths
