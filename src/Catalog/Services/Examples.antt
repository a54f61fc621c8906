-- ===== src/Catalog/Services/Examples.antt =====
-- The catalog on concrete answers of Docker.
use media_stack.Common.{
  Option, String, [], any_of, count_if, if◌then◌else◌, keep, none, one_if, refl, some, str_eq, true,
  ℕ, ◌&&◌, ◌+◌, ◌∷◌, ◌≡◌,
}
use media_stack.Common.Run.{done}
use media_stack.Catalog.Entry.{Entry}
use media_stack.Catalog.Registry.{
  by_id, by_id-clash_free, catalog, mem_num, shares_port, shares_volume,
}
use media_stack.Catalog.Services.{Container, Docker, conflict_of, given, install, not_found, remove}
use media_stack.Catalog.Services.Confined.{AllConfined, install-AllConfined, start-AllConfined}
use media_stack.Catalog.Services.Remove.{AllAllowed, remove-AllAllowed, start-AllAllowed}
use media_stack.Catalog.Services.Install.{at_start, creates, install_lem, is_given, is_ok, is_run}

-- Nothing is installed, one other container holds port 8080, and every request succeeds.
abbrev busy : Container
busy = record { name = "web"; status = "running"; port_bindings = (some "8080" ∷ none ∷ []) ∷ [] }

abbrev empty_host : Docker
empty_host = record {
  container = λ t. not_found;
  containers = λ t. given (busy ∷ []);
  pulled = λ t. given done;
  started = λ t. given done;
  stopped = λ t. given done;
  removed = λ t. given done;
  volume_removed = λ t. given done;
}

abbrev full_host : Docker
full_host = record empty_host { container = λ t. given busy }

abbrev int_of : String → Option ℕ
int_of t = if str_eq t "8080" then some 8080 else none

abbrev beszel_of : Option Entry
beszel_of = by_id "beszel" catalog

-- The program is there, with its id.
beszel : (e : Entry) × (by_id "beszel" catalog ≡ some e)
unfolding by_id catalog
beszel = (_, refl)

install_lem_example :
    (is_ok (install empty_host int_of "beszel" []).0 ≡ (
      creates empty_host int_of "beszel" beszel.0 []
      && is_given (empty_host.started (at_start empty_host int_of "beszel" beszel.0 []))))
    × (count_if is_run (install empty_host int_of "beszel" []).1
        ≡ count_if is_run [] + one_if (creates empty_host int_of "beszel" beszel.0 []))
install_lem_example = install_lem empty_host int_of "beszel" beszel.0 [] beszel.1

-- A port that is taken stops the installation before anything is pulled.
conflict : conflict_of beszel.0 (8090 ∷ []) ≡ 8090 ∷ []
unfolding conflict_of keep mem_num beszel
conflict = refl

install-AllConfined_example : AllConfined "beszel" (install empty_host int_of "beszel" []).1
install-AllConfined_example =
    install-AllConfined empty_host int_of "beszel" [] (start-AllConfined "beszel")

remove-AllAllowed_example : AllAllowed "beszel" true (remove full_host int_of "beszel" true []).1
remove-AllAllowed_example =
    remove-AllAllowed full_host int_of "beszel" true [] (start-AllAllowed "beszel" true)

by_id-clash_free_example : ◌≡◌ {A = String} "beszel" "beszel"
unfolding beszel shares_port shares_volume mem_num any_of
by_id-clash_free_example =
    by_id-clash_free "beszel" "beszel" beszel.0 beszel.0 beszel.1 beszel.1 refl
