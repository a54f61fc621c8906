-- ===== src/Catalog/Entries/Security.antt =====
-- catalog/entries/security.py
use media_stack.Common.{List, [], false, none, some, ◌∷◌}
use media_stack.Catalog.Entry.{Entry}

abbrev vaultwarden : Entry
vaultwarden = record {
  id = "vaultwarden";
  name = "Vaultwarden";
  category = "Security & unified access";
  pitch =
      "Self-hosted, Bitwarden-compatible password vault - genuinely useful given how many per-service API keys this stack alone manages.";
  image = "vaultwarden/server";
  tag = "latest";
  ports = ("80/tcp", 8222) ∷ [];
  volumes = ("catalog_vaultwarden_data", record { bind = "/data"; mode = "rw" }) ∷ [];
  environment = [];
  cap_add = [];
  devices = [];
  docker_sock = false;
  command = none;
  footprint = "~30MB RAM";
  doc_url = "https://github.com/dani-garcia/vaultwarden";
  caveat =
      some
        "Only use this behind the Caddy entry above - a password manager served over bare HTTP is a real risk, not installed with HTTPS on its own.";
}

abbrev organizr : Entry
organizr = record {
  id = "organizr";
  name = "Organizr";
  category = "Security & unified access";
  pitch =
      "Embeds every service's actual web UI as tabs in one shell - keeps you inside the page instead of bouncing per app, unlike Homepage's link-launcher.";
  image = "ghcr.io/organizr/organizr";
  tag = "latest";
  ports = ("80/tcp", 8083) ∷ [];
  volumes = ("catalog_organizr_data", record { bind = "/config"; mode = "rw" }) ∷ [];
  environment = [];
  cap_add = [];
  devices = [];
  docker_sock = false;
  command = none;
  footprint = "~50MB RAM";
  doc_url = "https://github.com/Organizr/docker-organizr";
  caveat = none;
}

abbrev pub catalog : List Entry
catalog = vaultwarden ∷ organizr ∷ []
