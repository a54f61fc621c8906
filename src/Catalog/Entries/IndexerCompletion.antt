-- ===== src/Catalog/Entries/IndexerCompletion.antt =====
-- catalog/entries/indexer_completion.py
use media_stack.Common.{List, [], false, none, some, ◌∷◌}
use media_stack.Catalog.Entry.{Entry}

abbrev flaresolverr : Entry
flaresolverr = record {
  id = "flaresolverr";
  name = "FlareSolverr";
  category = "Indexer & library completion";
  pitch =
      "Solves Cloudflare challenges Prowlarr can't get through directly - wires in as a Prowlarr indexer proxy.";
  image = "ghcr.io/flaresolverr/flaresolverr";
  tag = "latest";
  ports = ("8191/tcp", 8191) ∷ [];
  volumes = [];
  environment = ("LOG_LEVEL", "info") ∷ [];
  cap_add = [];
  devices = [];
  docker_sock = false;
  command = none;
  footprint = "~180MB RAM (headless browser)";
  doc_url = "https://github.com/FlareSolverr/FlareSolverr";
  caveat =
      some
        "After install, add it as a proxy in Prowlarr's Settings -> Indexers manually - not auto-wired.";
}

abbrev recyclarr : Entry
recyclarr = record {
  id = "recyclarr";
  name = "Recyclarr";
  category = "Indexer & library completion";
  pitch =
      "Continuously syncs TRaSH-Guides quality profiles and custom formats into Radarr/Sonarr - automates what the trash-guides-applier skill does by hand.";
  image = "ghcr.io/recyclarr/recyclarr";
  tag = "8";
  ports = [];
  volumes = ("catalog_recyclarr_data", record { bind = "/config"; mode = "rw" }) ∷ [];
  environment = [];
  cap_add = [];
  devices = [];
  docker_sock = false;
  command = none;
  footprint = "~20MB RAM (scheduled run, no persistent server)";
  doc_url = "https://github.com/recyclarr/recyclarr";
  caveat =
      some
        "Tag pinned to major version 8 on purpose - the :latest tag is no longer published upstream.";
}

abbrev pub catalog : List Entry
catalog = flaresolverr ∷ recyclarr ∷ []
