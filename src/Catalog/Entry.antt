-- ===== src/Catalog/Entry.antt =====
-- The shape of the entries of catalog/entries/*.py.
use media_stack.Common.{List, Option, String, Bool, ℕ}

-- A value of "volumes", or of the mounts of a container.
pub record Mount : Type 0 where
  pub bind : String
  pub mode : String

-- An entry; `docker_sock` is false and `command` is none where the source has no such key.
pub record Entry : Type 0 where
  pub id : String
  pub name : String
  pub category : String
  pub pitch : String
  pub image : String
  pub tag : String
  pub ports : List (String × ℕ)
  pub volumes : List (String × Mount)
  pub environment : List (String × String)
  pub cap_add : List String
  pub devices : List String
  pub docker_sock : Bool
  pub command : Option (List String)
  pub footprint : String
  pub doc_url : String
  pub caveat : Option String
