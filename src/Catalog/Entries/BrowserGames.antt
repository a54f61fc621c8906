-- ===== src/Catalog/Entries/BrowserGames.antt =====
-- catalog/entries/browser_games.py
use media_stack.Common.{List, [], false, none, some, ◌∷◌}
use media_stack.Catalog.Entry.{Entry}

abbrev scribble_rs : Entry
scribble_rs = record {
  id = "scribble-rs";
  name = "Scribble.rs";
  category = "Browser Games";
  pitch =
      "Real-time multiplayer Pictionary-style drawing game - no accounts, no setup, just open in your browser and draw.";
  image = "biosmarcel/scribble.rs";
  tag = "latest";
  ports = ("8080/tcp", 8200) ∷ [];
  volumes = [];
  environment = [];
  cap_add = [];
  devices = [];
  docker_sock = false;
  command = none;
  footprint = "~6.8MB image, Go binary, negligible RAM";
  doc_url = "https://github.com/scribble-rs/scribble.rs";
  caveat =
      some
        "Needs WebSocket-aware reverse-proxy configuration if placed behind a proxy later (not needed for direct port access).";
}

abbrev razzia : Entry
razzia = record {
  id = "razzia";
  name = "Razzia";
  category = "Browser Games";
  pitch =
      "Self-hosted Kahoot-style quiz game - create multiplayer quizzes, share a room code, and play with friends.";
  image = "ralex91/razzia";
  tag = "latest";
  ports = ("3000/tcp", 8201) ∷ [];
  volumes = ("catalog_razzia_config", record { bind = "/app/config"; mode = "rw" }) ∷ [];
  environment = [];
  cap_add = [];
  devices = [];
  docker_sock = false;
  command = none;
  footprint = "~52.4MB image, single Node process";
  doc_url = "https://github.com/Ralex91/Razzia";
  caveat =
      some
        "Change the default manager password inside config/game.json after first run - not set via environment variable.";
}

abbrev mah : Entry
mah = record {
  id = "mah";
  name = "Mah";
  category = "Browser Games";
  pitch =
      "HTML5 Mahjong Solitaire - play classic tile-matching solitaire, no install needed, responsive design.";
  image = "ffalt/mah";
  tag = "latest";
  ports = ("80/tcp", 8202) ∷ [];
  volumes = [];
  environment = [];
  cap_add = [];
  devices = [];
  docker_sock = false;
  command = none;
  footprint = "~31.8MB image, static file server";
  doc_url = "https://github.com/ffalt/mah";
  caveat =
      some
        "The project's dedicated docs page was unreachable during verification - port mapping is based on the Docker Hub docker run command.";
}

abbrev pub catalog : List Entry
catalog = scribble_rs ∷ razzia ∷ mah ∷ []
