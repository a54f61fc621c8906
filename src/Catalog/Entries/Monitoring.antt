-- ===== src/Catalog/Entries/Monitoring.antt =====
-- catalog/entries/monitoring.py
use media_stack.Common.{List, [], false, none, some, true, ◌∷◌}
use media_stack.Catalog.Entry.{Entry}

abbrev uptime_kuma : Entry
uptime_kuma = record {
  id = "uptime-kuma";
  name = "Uptime Kuma";
  category = "Monitoring & observability";
  pitch =
      "Pings every service's HTTP endpoint (and can watch Docker containers directly) - pages you the moment one goes dark, before you notice from the couch.";
  image = "louislam/uptime-kuma";
  tag = "2";
  ports = ("3001/tcp", 3050) ∷ [];
  volumes = ("catalog_uptime_kuma_data", record { bind = "/app/data"; mode = "rw" }) ∷ [];
  environment = [];
  cap_add = [];
  devices = [];
  docker_sock = false;
  command = none;
  footprint = "~90MB RAM";
  doc_url = "https://github.com/louislam/uptime-kuma";
  caveat = none;
}

abbrev beszel : Entry
beszel = record {
  id = "beszel";
  name = "Beszel";
  category = "Monitoring & observability";
  pitch =
      "Host + per-container CPU/RAM/disk/network, hub-and-agent. ~50x lighter than Grafana+Prometheus for this stack's scale.";
  image = "henrygd/beszel";
  tag = "latest";
  ports = ("8090/tcp", 8090) ∷ [];
  volumes = ("catalog_beszel_data", record { bind = "/beszel_data"; mode = "rw" }) ∷ [];
  environment = [];
  cap_add = [];
  devices = [];
  docker_sock = false;
  command = none;
  footprint = "<10MB RAM (hub); agent installs separately per host";
  doc_url = "https://github.com/henrygd/beszel";
  caveat =
      some
        "Hub only - the agent that actually reports container stats runs as a second, separate container (not installed by this one-click; see docs).";
}

abbrev scrutiny : Entry
scrutiny = record {
  id = "scrutiny";
  name = "Scrutiny";
  category = "Monitoring & observability";
  pitch =
      "S.M.A.R.T. drive health merged with Backblaze real-world failure-rate data - flags a dying disk weeks before it takes the library down.";
  image = "ghcr.io/analogj/scrutiny";
  tag = "latest-omnibus";
  ports = ("8080/tcp", 8085) ∷ [];
  volumes = ("catalog_scrutiny_data", record { bind = "/opt/scrutiny/config"; mode = "rw" }) ∷ [];
  environment = [];
  cap_add = "SYS_RAWIO" ∷ [];
  devices = [];
  docker_sock = false;
  command = none;
  footprint = "~70MB RAM";
  doc_url = "https://github.com/analogj/scrutiny";
  caveat =
      some
        "Needs SYS_RAWIO plus direct device passthrough to read SMART data - installed with cap_add granted, but device passthrough (which physical disks) needs a one-time manual edit before it can see any drives.";
}

abbrev dozzle : Entry
dozzle = record {
  id = "dozzle";
  name = "Dozzle";
  category = "Monitoring & observability";
  pitch =
      "Real-time log viewer across every container, 7MB image, nothing stored - the \"just let me see what radarr just logged\" tool without opening a shell.";
  image = "amir20/dozzle";
  tag = "latest";
  ports = ("8080/tcp", 8081) ∷ [];
  volumes = [];
  environment = [];
  cap_add = [];
  devices = [];
  docker_sock = true;
  command = none;
  footprint = "~15MB RAM";
  doc_url = "https://github.com/amir20/dozzle";
  caveat = none;
}

abbrev speedtest_tracker : Entry
speedtest_tracker = record {
  id = "speedtest-tracker";
  name = "Speedtest Tracker";
  category = "Monitoring & observability";
  pitch =
      "Runs a speed test on a schedule, graphs it over time - turns \"is the ISP throttling us\" from a feeling into a chart you can point at.";
  image = "henrywhitaker3/speedtest-tracker";
  tag = "latest";
  ports = ("80/tcp", 8701) ∷ [];
  volumes = ("catalog_speedtest_data", record { bind = "/config"; mode = "rw" }) ∷ [];
  environment = ("OOKLA_EULA_GDPR", "true") ∷ [];
  cap_add = [];
  devices = [];
  docker_sock = false;
  command = none;
  footprint = "~120MB RAM";
  doc_url = "https://github.com/henrywhitaker3/Speedtest-Tracker";
  caveat = some "No official ARM image from the maintainer - fine on this host.";
}

abbrev pub catalog : List Entry
catalog = uptime_kuma ∷ beszel ∷ scrutiny ∷ dozzle ∷ speedtest_tracker ∷ []
