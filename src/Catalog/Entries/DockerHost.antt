-- ===== src/Catalog/Entries/DockerHost.antt =====
-- catalog/entries/docker_host.py
use media_stack.Common.{List, [], false, none, some, true, ◌∷◌}
use media_stack.Catalog.Entry.{Entry}

abbrev portainer : Entry
portainer = record {
  id = "portainer";
  name = "Portainer CE";
  category = "Docker & host management";
  pitch =
      "Deeper stack/volume/network management than the control panel's app-specific container controls.";
  image = "portainer/portainer-ce";
  tag = "lts";
  ports = ("9443/tcp", 9443) ∷ [];
  volumes = ("catalog_portainer_data", record { bind = "/data"; mode = "rw" }) ∷ [];
  environment = [];
  cap_add = [];
  devices = [];
  docker_sock = true;
  command = none;
  footprint = "~80MB RAM";
  doc_url = "https://github.com/portainer/portainer";
  caveat =
      some
        "Overlaps with the control panel's own docker.sock access - different job (general admin vs. app-specific actions), not redundant, but both can restart the same container.";
}

abbrev filebrowser : Entry
filebrowser = record {
  id = "filebrowser";
  name = "Filebrowser";
  category = "Docker & host management";
  pitch =
      "A plain web file manager scoped to the media/config directories - upload, rename, preview without a terminal.";
  image = "filebrowser/filebrowser";
  tag = "latest";
  ports = ("80/tcp", 8082) ∷ [];
  volumes = ("catalog_filebrowser_data", record { bind = "/database"; mode = "rw" }) ∷ [];
  environment = [];
  cap_add = [];
  devices = [];
  docker_sock = false;
  command = none;
  footprint = "~25MB RAM";
  doc_url = "https://github.com/filebrowser/filebrowser";
  caveat =
      some
        "Installed with no media/config bind mount by default - add one manually before use, scoped as tightly as you're comfortable with.";
}

abbrev caddy : Entry
caddy = record {
  id = "caddy";
  name = "Caddy";
  category = "Docker & host management";
  pitch =
      "Reverse proxy with fully automatic HTTPS - two lines of config gets every service in this catalog a real certificate instead of a bare IP:port.";
  image = "caddy";
  tag = "latest";
  ports = ("80/tcp", 80) ∷ ("443/tcp", 443) ∷ [];
  volumes =
      ("catalog_caddy_data", record { bind = "/data"; mode = "rw" })
      ∷ ("catalog_caddy_config", record { bind = "/config"; mode = "rw" })
      ∷ [];
  environment = [];
  cap_add = [];
  devices = [];
  docker_sock = false;
  command = none;
  footprint = "~15MB RAM";
  doc_url = "https://caddyserver.com/docs/";
  caveat =
      some "Installed with a blank Caddyfile - add site blocks for each service you want proxied.";
}

abbrev pub catalog : List Entry
catalog = portainer ∷ filebrowser ∷ caddy ∷ []
