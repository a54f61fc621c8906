-- ===== src/Catalog/Entries/Media.antt =====
-- catalog/entries/media.py
use media_stack.Common.{List, [], false, none, some, ◌∷◌}
use media_stack.Catalog.Entry.{Entry}

abbrev navidrome : Entry
navidrome = record {
  id = "navidrome";
  name = "Navidrome";
  category = "Media";
  pitch =
      "Subsonic-compatible music server - stream your library to Symfonium, DSub, or any Subsonic client without the bulk of Plex.";
  image = "deluan/navidrome";
  tag = "latest";
  ports = ("4533/tcp", 8100) ∷ [];
  volumes =
      ("catalog_navidrome_data", record { bind = "/data"; mode = "rw" })
      ∷ ("catalog_navidrome_music", record { bind = "/music"; mode = "ro" })
      ∷ [];
  environment = [];
  cap_add = [];
  devices = [];
  docker_sock = false;
  command = none;
  footprint = "~40MB RAM";
  doc_url = "https://www.navidrome.org/docs/installation/docker/";
  caveat =
      some
        "No built-in web player - you need a separate Subsonic client (Symfonium, DSub, etc.) to stream your music.";
}

abbrev gonic : Entry
gonic = record {
  id = "gonic";
  name = "Gonic";
  category = "Media";
  pitch =
      "Go-powered Subsonic server for music and podcasts - minimal footprint, zero UI bloat, just Subsonic API.";
  image = "sentriz/gonic";
  tag = "latest";
  ports = ("80/tcp", 8101) ∷ [];
  volumes =
      ("catalog_gonic_data", record { bind = "/data"; mode = "rw" })
      ∷ ("catalog_gonic_music", record { bind = "/music"; mode = "ro" })
      ∷ [];
  environment = [];
  cap_add = [];
  devices = [];
  docker_sock = false;
  command = none;
  footprint = "~30MB RAM";
  doc_url = "https://github.com/sentriz/gonic";
  caveat =
      some
        "Default credentials are admin/admin - change them immediately after first run. Also serves podcasts via Subsonic API.";
}

abbrev audiobookshelf : Entry
audiobookshelf = record {
  id = "audiobookshelf";
  name = "Audiobookshelf";
  category = "Media";
  pitch =
      "Audiobooks + podcasts in one web app - progress syncs across devices, metadata auto-fetches from Apple Books.";
  image = "ghcr.io/advplyr/audiobookshelf";
  tag = "latest";
  ports = ("80/tcp", 8102) ∷ [];
  volumes =
      ("catalog_audiobookshelf_config", record { bind = "/config"; mode = "rw" })
      ∷ ("catalog_audiobookshelf_metadata", record { bind = "/metadata"; mode = "rw" })
      ∷ ("catalog_audiobookshelf_books", record { bind = "/audiobooks"; mode = "rw" })
      ∷ ("catalog_audiobookshelf_podcasts", record { bind = "/podcasts"; mode = "rw" })
      ∷ [];
  environment = [];
  cap_add = [];
  devices = [];
  docker_sock = false;
  command = none;
  footprint = "~150MB RAM";
  doc_url = "https://www.audiobookshelf.org/docs";
  caveat =
      some "Frontend is mid-migration from Vue to React - expect UI changes in upcoming releases.";
}

abbrev kavita : Entry
kavita = record {
  id = "kavita";
  name = "Kavita";
  category = "Media";
  pitch =
      "Manga, comics, and books in one reader - reads .cbr/.cbz/.pdf/.epub natively, syncs progress to your phone.";
  image = "jvmilazz0/kavita";
  tag = "latest";
  ports = ("5000/tcp", 8103) ∷ [];
  volumes =
      ("catalog_kavita_manga", record { bind = "/manga"; mode = "rw" })
      ∷ ("catalog_kavita_comics", record { bind = "/comics"; mode = "rw" })
      ∷ ("catalog_kavita_books", record { bind = "/books"; mode = "rw" })
      ∷ ("catalog_kavita_config", record { bind = "/kavita/config"; mode = "rw" })
      ∷ [];
  environment = [];
  cap_add = [];
  devices = [];
  docker_sock = false;
  command = none;
  footprint = "~200MB RAM";
  doc_url = "https://wiki.kavitareader.com/installation/docker/dockerhub/";
  caveat =
      some
        "The older kizaing/kavita image is archived - this uses the community mirror the project's own wiki points to.";
}

abbrev komga : Entry
komga = record {
  id = "komga";
  name = "Komga";
  category = "Media";
  pitch =
      "Comics and manga browser - fast metadata library browser, Discord bot integration, no database needed.";
  image = "gotson/komga";
  tag = "1.4.1";
  ports = ("25600/tcp", 8104) ∷ [];
  volumes =
      ("catalog_komga_config", record { bind = "/config"; mode = "rw" })
      ∷ ("catalog_komga_data", record { bind = "/data"; mode = "rw" })
      ∷ [];
  environment = [];
  cap_add = [];
  devices = [];
  docker_sock = false;
  command = none;
  footprint = "~250MB RAM";
  doc_url = "https://komga.org/docs/installation/docker/";
  caveat =
      some
        "Run with a UID:GID matching your host file ownership - mismatched UIDs cause permission errors on the library mount.";
}

abbrev stump : Entry
stump = record {
  id = "stump";
  name = "Stump";
  category = "Media";
  pitch =
      "Rust-powered comic server with offline-first design - fast metadata searches, web reader, zero database overhead.";
  image = "aaronleopold/stump";
  tag = "latest";
  ports = ("10801/tcp", 8105) ∷ [];
  volumes =
      ("catalog_stump_config", record { bind = "/config"; mode = "rw" })
      ∷ ("catalog_stump_data", record { bind = "/data"; mode = "rw" })
      ∷ [];
  environment = [];
  cap_add = [];
  devices = [];
  docker_sock = false;
  command = none;
  footprint = "~100MB RAM";
  doc_url = "https://www.stumpapp.dev/installation/docker";
  caveat =
      some
        "Pre-1.0 beta software - less stable than Kavita or Komga, test with a small library first.";
}

abbrev calibre_web : Entry
calibre_web = record {
  id = "calibre-web";
  name = "Calibre-Web";
  category = "Media";
  pitch =
      "Web front-end for a Calibre library - OPDS server, e-book reader, user accounts, all without touching Calibre's UI.";
  image = "lscr.io/linuxserver/calibre-web";
  tag = "latest";
  ports = ("8083/tcp", 8106) ∷ [];
  volumes =
      ("catalog_calibreweb_config", record { bind = "/config"; mode = "rw" })
      ∷ ("catalog_calibreweb_books", record { bind = "/books"; mode = "rw" })
      ∷ [];
  environment = [];
  cap_add = [];
  devices = [];
  docker_sock = false;
  command = none;
  footprint = "~80MB RAM";
  doc_url = "https://docs.linuxserver.io/images/docker-calibre-web/";
  caveat =
      some
        "This is a web UI for an existing Calibre library (metadata.db) - not a standalone ingest tool. Pair with Calibre or LazyLibrarian.";
}

abbrev lazylibrarian : Entry
lazylibrarian = record {
  id = "lazylibrarian";
  name = "LazyLibrarian";
  category = "Media";
  pitch =
      "Book acquisition tool (Sonarr/Radarr-style) - auto-finds and downloads books, integrates with usenet + torrent indexers.";
  image = "lscr.io/linuxserver/lazylibrarian";
  tag = "latest";
  ports = ("5299/tcp", 8107) ∷ [];
  volumes =
      ("catalog_lazylibrarian_config", record { bind = "/config"; mode = "rw" })
      ∷ ("catalog_lazylibrarian_downloads", record { bind = "/downloads"; mode = "rw" })
      ∷ ("catalog_lazylibrarian_books", record { bind = "/books"; mode = "rw" })
      ∷ [];
  environment = [];
  cap_add = [];
  devices = [];
  docker_sock = false;
  command = none;
  footprint = "~90MB RAM";
  doc_url = "https://docs.linuxserver.io/images/docker-lazylibrarian/";
  caveat =
      some
        "This is a book-acquisition tool, not a reader - pair with Calibre-Web or Kavita for actual reading. Requires manual indexer and download-client setup like Radarr/Sonarr.";
}

abbrev pub catalog : List Entry
catalog =
    navidrome ∷ gonic ∷ audiobookshelf ∷ kavita ∷ komga ∷ stump ∷ calibre_web ∷ lazylibrarian ∷ []
