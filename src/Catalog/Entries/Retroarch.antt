-- ===== src/Catalog/Entries/Retroarch.antt =====
-- catalog/entries/retroarch.py
use media_stack.Common.{List, [], false, none, some, ◌∷◌}
use media_stack.Catalog.Entry.{Entry}

abbrev retroarch : Entry
retroarch = record {
  id = "retroarch";
  name = "RetroArch";
  category = "RetroArch Emulation";
  pitch =
      "Full multi-system libretro frontend in your browser - play NES, SNES, Genesis, N64, and more games from a streamed desktop.";
  image = "lscr.io/linuxserver/retroarch";
  tag = "latest";
  ports = ("3000/tcp", 8430) ∷ ("3001/tcp", 8431) ∷ [];
  volumes = ("catalog_retroarch_config", record { bind = "/config"; mode = "rw" }) ∷ [];
  environment = [];
  cap_add = [];
  devices = [];
  docker_sock = false;
  command = none;
  footprint = "~500MB-1GB RAM";
  doc_url = "https://docs.linuxserver.io/images/docker-retroarch/";
  caveat =
      some
        "Full multi-system libretro frontend; runs a complete streamed desktop, not a lightweight page - do not expose to the internet unsecured. User supplies own ROMs.";
}

abbrev mame : Entry
mame = record {
  id = "mame";
  name = "MAME";
  category = "RetroArch Emulation";
  pitch =
      "Arcade game and pinball machine emulator - plays thousands of classic arcade titles with near-perfect accuracy.";
  image = "lscr.io/linuxserver/mame";
  tag = "latest";
  ports = ("3000/tcp", 8432) ∷ ("3001/tcp", 8433) ∷ [];
  volumes =
      ("catalog_mame_config", record { bind = "/config"; mode = "rw" })
      ∷ ("catalog_mame_roms", record { bind = "/mame"; mode = "ro" })
      ∷ [];
  environment = [];
  cap_add = [];
  devices = [];
  docker_sock = false;
  command = none;
  footprint = "~500MB-1GB RAM";
  doc_url = "https://docs.linuxserver.io/images/docker-mame/";
  caveat =
      some
        "Runs a complete streamed desktop - do not expose to the internet unsecured. User supplies own ROMs.";
}

abbrev pcsx2 : Entry
pcsx2 = record {
  id = "pcsx2";
  name = "PCSX2";
  category = "RetroArch Emulation";
  pitch =
      "PlayStation 2 emulator - play PS2 games in a browser window with full controller support.";
  image = "lscr.io/linuxserver/pcsx2";
  tag = "latest";
  ports = ("3000/tcp", 8434) ∷ ("3001/tcp", 8435) ∷ [];
  volumes = ("catalog_pcsx2_config", record { bind = "/config"; mode = "rw" }) ∷ [];
  environment = [];
  cap_add = [];
  devices = [];
  docker_sock = false;
  command = none;
  footprint = "~500MB-1GB RAM";
  doc_url = "https://docs.linuxserver.io/images/docker-pcsx2/";
  caveat =
      some
        "amd64 only, no arm64 build. Runs a complete streamed desktop - do not expose to the internet unsecured.";
}

abbrev dolphin : Entry
dolphin = record {
  id = "dolphin";
  name = "Dolphin";
  category = "RetroArch Emulation";
  pitch =
      "GameCube and Wii emulator - play Nintendo's sixth and seventh generation consoles with high fidelity graphics.";
  image = "lscr.io/linuxserver/dolphin";
  tag = "latest";
  ports = ("3000/tcp", 8436) ∷ ("3001/tcp", 8437) ∷ [];
  volumes = ("catalog_dolphin_config", record { bind = "/config"; mode = "rw" }) ∷ [];
  environment = [];
  cap_add = [];
  devices = [];
  docker_sock = false;
  command = none;
  footprint = "~500MB-1GB RAM";
  doc_url = "https://docs.linuxserver.io/images/docker-dolphin/";
  caveat =
      some
        "amd64 only; gamepad support requires exiting and reopening Dolphin after first container creation.";
}

abbrev ppsspp : Entry
ppsspp = record {
  id = "ppsspp";
  name = "PPSSPP";
  category = "RetroArch Emulation";
  pitch =
      "PlayStation Portable emulator - play your PSP collection with modern graphics scaling and controller support.";
  image = "lscr.io/linuxserver/ppsspp";
  tag = "latest";
  ports = ("3000/tcp", 8438) ∷ ("3001/tcp", 8439) ∷ [];
  volumes = ("catalog_ppsspp_config", record { bind = "/config"; mode = "rw" }) ∷ [];
  environment = [];
  cap_add = [];
  devices = [];
  docker_sock = false;
  command = none;
  footprint = "~500MB-1GB RAM";
  doc_url = "https://docs.linuxserver.io/images/docker-ppsspp/";
  caveat = some "amd64 only.";
}

abbrev xemu : Entry
xemu = record {
  id = "xemu";
  name = "xemu";
  category = "RetroArch Emulation";
  pitch = "Original Xbox emulator - play first-generation Xbox titles in your browser.";
  image = "lscr.io/linuxserver/xemu";
  tag = "latest";
  ports = ("3000/tcp", 8440) ∷ ("3001/tcp", 8441) ∷ [];
  volumes = ("catalog_xemu_config", record { bind = "/config"; mode = "rw" }) ∷ [];
  environment = [];
  cap_add = [];
  devices = [];
  docker_sock = false;
  command = none;
  footprint = "~500MB-1GB RAM";
  doc_url = "https://docs.linuxserver.io/images/docker-xemu/";
  caveat = some "Runs a complete streamed desktop - do not expose to the internet unsecured.";
}

abbrev melonds : Entry
melonds = record {
  id = "melonds";
  name = "melonDS";
  category = "RetroArch Emulation";
  pitch = "Nintendo DS emulator - play your DS cartridge collection with dual-screen emulation.";
  image = "lscr.io/linuxserver/melonds";
  tag = "latest";
  ports = ("3000/tcp", 8442) ∷ ("3001/tcp", 8443) ∷ [];
  volumes = ("catalog_melonds_config", record { bind = "/config"; mode = "rw" }) ∷ [];
  environment = [];
  cap_add = [];
  devices = [];
  docker_sock = false;
  command = none;
  footprint = "~500MB-1GB RAM";
  doc_url = "https://docs.linuxserver.io/images/docker-melonds/";
  caveat =
      some
        "x86_64/Wayland path needs an AVX2-capable CPU (Haswell or newer); older CPUs fall back to X11 automatically.";
}

abbrev flycast : Entry
flycast = record {
  id = "flycast";
  name = "Flycast";
  category = "RetroArch Emulation";
  pitch =
      "Dreamcast, Naomi, and Atomiswave emulator - play Sega's arcade and home console games with full accuracy.";
  image = "lscr.io/linuxserver/flycast";
  tag = "latest";
  ports = ("3000/tcp", 8444) ∷ ("3001/tcp", 8445) ∷ [];
  volumes = ("catalog_flycast_config", record { bind = "/config"; mode = "rw" }) ∷ [];
  environment = [];
  cap_add = [];
  devices = [];
  docker_sock = false;
  command = none;
  footprint = "~500MB-1GB RAM";
  doc_url = "https://docs.linuxserver.io/images/docker-flycast/";
  caveat = some "amd64 only.";
}

abbrev scummvm : Entry
scummvm = record {
  id = "scummvm";
  name = "ScummVM";
  category = "RetroArch Emulation";
  pitch =
      "Classic adventure and RPG game engine - runs LucasArts, Sierra, and other vintage adventure titles in your browser.";
  image = "lscr.io/linuxserver/scummvm";
  tag = "latest";
  ports = ("3000/tcp", 8446) ∷ ("3001/tcp", 8447) ∷ [];
  volumes = ("catalog_scummvm_config", record { bind = "/config"; mode = "rw" }) ∷ [];
  environment = [];
  cap_add = [];
  devices = [];
  docker_sock = false;
  command = none;
  footprint = "~500MB-1GB RAM";
  doc_url = "https://docs.linuxserver.io/images/docker-scummvm/";
  caveat =
      some
        "An engine replacement, not a game source - requires the user to already own the actual game data files.";
}

abbrev eden : Entry
eden = record {
  id = "eden";
  name = "Eden";
  category = "RetroArch Emulation";
  pitch =
      "Experimental Nintendo Switch emulator - play Switch titles in your browser (requires console keys and GPU passthrough).";
  image = "lscr.io/linuxserver/eden";
  tag = "latest";
  ports = ("3000/tcp", 8448) ∷ ("3001/tcp", 8449) ∷ [];
  volumes = ("catalog_eden_config", record { bind = "/config"; mode = "rw" }) ∷ [];
  environment = [];
  cap_add = [];
  devices = [];
  docker_sock = false;
  command = none;
  footprint = "~500MB-1GB+ RAM";
  doc_url = "https://github.com/linuxserver/docker-eden";
  caveat =
      some
        "Experimental Switch emulator; requires user-supplied console keys/firmware and a working GPU passthrough - heaviest and least mature entry.";
}

abbrev dosbox_staging : Entry
dosbox_staging = record {
  id = "dosbox-staging";
  name = "DOSBox Staging";
  category = "RetroArch Emulation";
  pitch =
      "DOS game and program emulator - play classic DOS titles, demos, and utilities in your browser.";
  image = "lscr.io/linuxserver/dosbox-staging";
  tag = "latest";
  ports = ("3000/tcp", 8450) ∷ ("3001/tcp", 8451) ∷ [];
  volumes = ("catalog_dosbox_config", record { bind = "/config"; mode = "rw" }) ∷ [];
  environment = [];
  cap_add = [];
  devices = [];
  docker_sock = false;
  command = none;
  footprint = "~500MB-1GB RAM";
  doc_url = "https://docs.linuxserver.io/images/docker-dosbox-staging/";
  caveat =
      some
        "Runs a complete streamed desktop - do not expose to the internet unsecured. DOS game/program files supplied by the user.";
}

abbrev webrcade : Entry
webrcade = record {
  id = "webrcade";
  name = "webrcade";
  category = "RetroArch Emulation";
  pitch =
      "Static retro-gaming web app - play classic console and arcade games via browser, lighter than desktop emulators.";
  image = "webrcade/webrcade";
  tag = "latest";
  ports = ("80/tcp", 8452) ∷ ("443/tcp", 8453) ∷ [];
  volumes =
      ("catalog_webrcade_content", record { bind = "/var/www/html/content"; mode = "rw" }) ∷ [];
  environment = [];
  cap_add = [];
  devices = [];
  docker_sock = false;
  command = none;
  footprint = "Light-moderate RAM";
  doc_url = "https://docs.webrcade.com/advanced/docker/";
  caveat =
      some
        "Ships with a default feed of publicly available games and demos; add your own content to custom feeds. Cloud-storage features unavailable in Docker build.";
}

abbrev pub catalog : List Entry
catalog =
    retroarch ∷ mame ∷ pcsx2 ∷ dolphin ∷ ppsspp ∷ xemu ∷ melonds ∷ flycast ∷ scummvm ∷ eden
    ∷ dosbox_staging ∷ webrcade ∷ []
