-- ===== src/Catalog/Entries/Notifications.antt =====
-- catalog/entries/notifications.py
use media_stack.Common.{List, [], false, none, some, ◌∷◌}
use media_stack.Catalog.Entry.{Entry}

abbrev notifiarr : Entry
notifiarr = record {
  id = "notifiarr";
  name = "Notifiarr";
  category = "Notifications";
  pitch =
      "One client that every *arr app in this fleet reports to, fanning out to Discord/webhooks - replaces per-app notification config with one place to manage it.";
  image = "golift/notifiarr";
  tag = "latest";
  ports = [];
  volumes = ("catalog_notifiarr_data", record { bind = "/config"; mode = "rw" }) ∷ [];
  environment = [];
  cap_add = [];
  devices = [];
  docker_sock = false;
  command = none;
  footprint = "~55MB RAM";
  doc_url = "https://github.com/Notifiarr/notifiarr";
  caveat =
      some
        "Needs each *arr app's URL + API key entered in its own config UI after install - not wired automatically by this installer.";
}

abbrev ntfy : Entry
ntfy = record {
  id = "ntfy";
  name = "ntfy";
  category = "Notifications";
  pitch =
      "Push straight to your phone/desktop with a plain HTTP POST, no account or app-store dependency.";
  image = "binwiederhier/ntfy";
  tag = "latest";
  ports = ("80/tcp", 8093) ∷ [];
  volumes = ("catalog_ntfy_data", record { bind = "/var/lib/ntfy"; mode = "rw" }) ∷ [];
  environment = [];
  cap_add = [];
  devices = [];
  docker_sock = false;
  command = some ("serve" ∷ []);
  footprint = "~30MB RAM";
  doc_url = "https://github.com/binwiederhier/ntfy";
  caveat = none;
}

abbrev pub catalog : List Entry
catalog = notifiarr ∷ ntfy ∷ []
