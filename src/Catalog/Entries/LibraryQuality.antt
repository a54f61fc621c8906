-- ===== src/Catalog/Entries/LibraryQuality.antt =====
-- catalog/entries/library_quality.py
use media_stack.Common.{List, [], false, none, some, ◌∷◌}
use media_stack.Catalog.Entry.{Entry}

abbrev tdarr : Entry
tdarr = record {
  id = "tdarr";
  name = "Tdarr";
  category = "Library quality & sync";
  pitch =
      "Distributed transcode automation - re-encodes the library against rules you set, commonly cutting storage 40-50% with no visible quality loss.";
  image = "haveagitgat/tdarr";
  tag = "latest";
  ports = ("8265/tcp", 8265) ∷ ("8266/tcp", 8266) ∷ [];
  volumes =
      ("catalog_tdarr_server", record { bind = "/app/server"; mode = "rw" })
      ∷ ("catalog_tdarr_configs", record { bind = "/app/configs"; mode = "rw" })
      ∷ ("catalog_tdarr_logs", record { bind = "/app/logs"; mode = "rw" })
      ∷ [];
  environment = [];
  cap_add = [];
  devices = [];
  docker_sock = false;
  command = none;
  footprint = "~200MB RAM; transcode work itself is CPU/GPU-bound";
  doc_url = "https://github.com/HaveAGitGat/Tdarr";
  caveat =
      some
        "Server only - a Tdarr_Node (separate container) does the actual transcoding and isn't installed automatically.";
}

abbrev watchstate : Entry
watchstate = record {
  id = "watchstate";
  name = "Watchstate";
  category = "Library quality & sync";
  pitch =
      "Syncs watch/play state between Plex and Trakt - broader scope than PlexTraktSync, which this replaces outright.";
  image = "ghcr.io/arabcoders/watchstate";
  tag = "latest";
  ports = ("8080/tcp", 8096) ∷ [];
  volumes = ("catalog_watchstate_data", record { bind = "/config"; mode = "rw" }) ∷ [];
  environment = [];
  cap_add = [];
  devices = [];
  docker_sock = false;
  command = none;
  footprint = "~60MB RAM";
  doc_url = "https://github.com/arabcoders/watchstate";
  caveat = none;
}

abbrev pub catalog : List Entry
catalog = tdarr ∷ watchstate ∷ []
