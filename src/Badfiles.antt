-- ===== src/Badfiles.antt =====
-- scripts/checkrr-badfiles-report.py: which of the files that checkrr flagged are dead. The
-- extension of a path, the joining of paths and the files themselves are parameters.
pub mod Report
pub mod Index
pub mod Config
pub mod Commands
pub mod Verdict
pub mod Attribution
pub mod Counting
pub mod Failure
pub mod Addresses
pub mod Searches
pub mod Tracking
mod Examples
use media_stack.Common.{
  Bool, List, Option, Text, [], all_of, codes, drop_text, false, if◌then◌else◌, length, mem_text,
  none, option_map, some, starts_with, take_text, text_eq, ℕ, ◌==◌, ◌∷◌,
}

-- LIBRARIES: the container prefix, the host directory, and the Arr key.
abbrev pub libraries : List (Text × Text × Text)
libraries =
    (codes "/data/movies/", codes "media/movies", codes "radarr")
    ∷ (codes "/data/shows/", codes "media/shows", codes "sonarr")
    ∷ (codes "/data/anime-movies/", codes "media/anime-movies", codes "radarr_anime")
    ∷ (codes "/data/anime-shows/", codes "media/anime-shows", codes "sonarr_anime")
    ∷ []

abbrev ebml : Text
ebml = 0x1a ∷ 0x45 ∷ 0xdf ∷ 0xa3 ∷ []

-- SIGNATURES: the extension, where the signature sits, and its bytes.
abbrev pub signatures : List (Text × ℕ × Text)
signatures =
    (codes ".mkv", 0, ebml)
    ∷ (codes ".mk3d", 0, ebml)
    ∷ (codes ".webm", 0, ebml)
    ∷ (codes ".mp4", 4, codes "ftyp")
    ∷ (codes ".m4v", 4, codes "ftyp")
    ∷ (codes ".mov", 4, codes "ftyp")
    ∷ (codes ".avi", 0, codes "RIFF")
    ∷ (codes ".ts", 0, 0x47 ∷ [])
    ∷ (codes ".mpg", 0, 0 ∷ 0 ∷ 1 ∷ [])
    ∷ (codes ".mpeg", 0, 0 ∷ 0 ∷ 1 ∷ [])
    ∷ (codes ".wmv", 0, 0x30 ∷ 0x26 ∷ 0xb2 ∷ 0x75 ∷ [])
    ∷ (codes ".flv", 0, codes "FLV")
    ∷ []

abbrev pub unprobeable_exts : List Text
unprobeable_exts =
    codes ".iso" ∷ codes ".img" ∷ codes ".m2ts" ∷ codes ".vob" ∷ codes ".bdmv" ∷ codes ".mpls" ∷ []

abbrev pub non_media_exts : List Text
non_media_exts =
    codes ".srt"
    ∷ codes ".sub"
    ∷ codes ".idx"
    ∷ codes ".ass"
    ∷ codes ".ssa"
    ∷ codes ".nfo"
    ∷ codes ".txt"
    ∷ []

pub data Status : Type 0 where
  dead healthy unprobeable non_media missing unreadable unknown_ext : Status

-- The second part of a verdict, with the values that its text shows.
pub data Detail : Type 0 where
  extension : Text → Detail
  outside_libraries no_such_file : Detail
  os_error : Text → Detail
  empty_file zeroed_header header_ok unverified : Detail
  leading : (head : Text) → Detail
  bad_header : (head magic : Text) → Detail

-- What is found at a host path: nothing, an OSError on reading, or the first 16 bytes.
pub data Found : Type 0 where
  absent : Found
  no_read : Text → Found
  head : Text → Found

-- The first entry whose prefix the path has.
unfoldable pub library_of : Text → List (Text × Text × Text) → Option (Text × Text × Text)
library_of path [] = none
library_of path (l ∷ rest) =
    let later = library_of path rest in if starts_with path l.0 then some l else later

-- `library_for`, of which the callers use the Arr key.
unfoldable pub library_for : Text → Option Text
unfolding library_of starts_with
library_for path = option_map (λ l. l.2) (library_of path libraries)

-- `os.path.join(REPO_ROOT, host_dir, path[len(prefix):])`, where `join` joins the last two.
unfoldable pub container_to_host : (Text → Text → Text) → Text → Option Text
unfolding library_of starts_with drop_text
container_to_host join path =
    option_map (λ l. join l.1 (drop_text (length l.0) path)) (library_of path libraries)

unfoldable pub signature_of : Text → List (Text × ℕ × Text) → Option (ℕ × Text)
signature_of ext [] = none
signature_of ext (s ∷ rest) =
    let later = signature_of ext rest in if text_eq s.0 ext then some (s.1, s.2) else later

-- `set(head[:8]) == {0}`
unfoldable pub is_zeroed : Text → Bool
unfolding take_text
is_zeroed [] = false
is_zeroed (c ∷ t) = all_of (λ b. b == 0) (take_text 8 (c ∷ t))

-- The test of the bytes against the signature of the extension.
unfoldable pub by_signature : Option (ℕ × Text) → Text → Status × Detail
unfolding take_text drop_text starts_with
by_signature none bytes = (unknown_ext, leading (take_text 4 bytes))
by_signature (some (offset, magic)) bytes =
    if starts_with (drop_text offset bytes) magic
    then (healthy, header_ok)
    else (dead, bad_header (take_text 4 bytes) magic)

unfoldable pub verify_bytes : Text → Text → Status × Detail
unfolding is_zeroed by_signature signature_of
verify_bytes ext [] = (dead, empty_file)
verify_bytes ext (c ∷ t) =
    if is_zeroed (c ∷ t)
    then (dead, zeroed_header)
    else by_signature (signature_of ext signatures) (c ∷ t)

unfoldable pub verify_found : Text → Found → Status × Detail
unfolding verify_bytes
verify_found ext absent = (missing, no_such_file)
verify_found ext (no_read e) = (unreadable, os_error e)
verify_found ext (head bytes) = verify_bytes ext bytes

unfoldable pub verify_host : Text → (Text → Found) → Option Text → Status × Detail
unfolding verify_found
verify_host ext look none = (unknown_ext, outside_libraries)
verify_host ext look (some host_path) = verify_found ext (look host_path)

-- `ext_of` is `os.path.splitext(path)[1].lower()`.
unfoldable pub verify_file :
    (ext_of : Text → Text) (join : Text → Text → Text) (look : Text → Found)
    → Text
    → Status × Detail
unfolding verify_host container_to_host mem_text
verify_file ext_of join look path =
    if mem_text (ext_of path) non_media_exts
    then (non_media, extension (ext_of path))
    else if mem_text (ext_of path) unprobeable_exts
    then (unprobeable, extension (ext_of path))
    else verify_host (ext_of path) look (container_to_host join path)
