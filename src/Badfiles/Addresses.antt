-- ===== src/Badfiles/Addresses.antt =====
-- Where the commands that scripts/checkrr-badfiles-report.py prints are sent to.
use media_stack.Common.{
  All, Bool-cases, List, Option, Text, [], any_of, codes, get_default, inl, inr, lookup, none, refl,
  some, ◌∷◌, ◌≡◌, ◌⊎◌,
}
use media_stack.Badfiles.Config.{Block}
use media_stack.Badfiles.Commands.{
  Command, Entry, SeriesKey, delete_episode_file, delete_movie_file, deletions, field_of,
  movie_commands, radarr_key, radarr_port, same_series, search_movie, search_series, searches,
  series_of, sonarr_key, sonarr_port,
}

-- What the configuration says under `name` for this instance, or `otherwise` where it says nothing.
abbrev pub Configured : List (Text × Block) → Text → Text → Text → Text → Type 0
Configured arrs arr name otherwise v =
    ((b : Block) × (lookup arr arrs ≡ some b) × (lookup name b.fields ≡ some v))
    ⊎ ((v ≡ otherwise) × ((b : Block) → lookup arr arrs ≡ some b → lookup name b.fields ≡ none))

-- A command for this instance with the port and the key that the configuration file has for it.
abbrev pub AddressedTo : List (Text × Block) → (key port : Text) → Text → Text → Text → Type 0
AddressedTo arrs usual_port usual_key arr port key =
    Configured arrs arr (codes "port") usual_port port
    × Configured arrs arr (codes "apikey") usual_key key

abbrev pub IsAddressed : List (Text × Block) → Command → Type 0
IsAddressed arrs (delete_movie_file arr port key n) =
    AddressedTo arrs (codes "7878") (codes "$RADARR_API_KEY") arr port key
IsAddressed arrs (search_movie arr port key n) =
    AddressedTo arrs (codes "7878") (codes "$RADARR_API_KEY") arr port key
IsAddressed arrs (delete_episode_file arr port key n) =
    AddressedTo arrs (codes "8989") (codes "$SONARR_API_KEY") arr port key
IsAddressed arrs (search_series arr port key n) =
    AddressedTo arrs (codes "8989") (codes "$SONARR_API_KEY") arr port key

field_of-Configured :
    (arrs : List (Text × Block)) (arr name otherwise : Text)
    → Configured arrs arr name otherwise (field_of arrs arr name otherwise)
unfolding field_of
field_of-Configured arrs arr name otherwise = by_block (lookup arr arrs) refl
  where
    by_field :
        (b : Block) (o : Option Text)
        → lookup arr arrs ≡ some b
        → lookup name b.fields ≡ o
        → Configured arrs arr name otherwise (get_default otherwise o)
    by_field b (some v) e k = inl (b, e, k)
    by_field b none e k = inr (refl, λ c h. cc)

    by_block :
        (o : Option Block)
        → lookup arr arrs ≡ o
        → Configured arrs arr name otherwise (elim o as (λ z. Text) [
          | none ↦ otherwise
          | some b ↦ get_default otherwise (lookup name b.fields)
        ])
    by_block none e = inr (refl, λ c h. cc)
    by_block (some b) e = by_field b (lookup name b.fields) e refl

module _ (arrs : List (Text × Block)) where
  movie_address :
      (arr : Text)
      → AddressedTo arrs
          (codes "7878")
          (codes "$RADARR_API_KEY")
          arr
          (radarr_port arrs arr)
          (radarr_key arrs arr)
  movie_address arr = (
    field_of-Configured arrs arr (codes "port") (codes "7878"),
    field_of-Configured arrs arr (codes "apikey") (codes "$RADARR_API_KEY"),
  )

  show_address :
      (arr : Text)
      → AddressedTo arrs
          (codes "8989")
          (codes "$SONARR_API_KEY")
          arr
          (sonarr_port arrs arr)
          (sonarr_key arrs arr)
  show_address arr = (
    field_of-Configured arrs arr (codes "port") (codes "8989"),
    field_of-Configured arrs arr (codes "apikey") (codes "$SONARR_API_KEY"),
  )

  pub movie_commands-IsAddressed :
      (rows : List Entry) → All (IsAddressed arrs) (movie_commands arrs rows)
  unfolding movie_commands
  movie_commands-IsAddressed [] = tt
  movie_commands-IsAddressed (r ∷ rows) =
      (movie_address r.0, (movie_address r.0, movie_commands-IsAddressed rows))

  pub deletions-IsAddressed : (rows : List Entry) → All (IsAddressed arrs) (deletions arrs rows)
  unfolding deletions
  deletions-IsAddressed [] = tt
  deletions-IsAddressed (r ∷ rows) = (show_address r.0, deletions-IsAddressed rows)

  pub searches-IsAddressed :
      (rows : List Entry) (seen : List SeriesKey) → All (IsAddressed arrs) (searches arrs rows seen)
  unfolding searches
  searches-IsAddressed [] seen = tt
  searches-IsAddressed (r ∷ rows) seen =
      elim (Bool-cases (any_of (same_series (series_of r)) seen)) [
        | inl e ↦ rw e (searches-IsAddressed rows seen)
        | inr e ↦ rw e (show_address r.0, searches-IsAddressed rows (series_of r ∷ seen))
      ]
