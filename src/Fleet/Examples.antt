-- ===== src/Fleet/Examples.antt =====
-- The restarts of a small project.
use media_stack.Common.{
  List, String, [], ap, arith, count_if, false, keep, length, map, mem_str, none, not, refl, some,
  sym, true, ◌&&◌, ◌++◌, ◌+◌, ◌||◌, ◌∷◌, ◌≡◌, ◌≤◌,
}
use media_stack.Common.Run.{ok}
use media_stack.Fleet.{
  Container, Docker, Request, healthy, is_prereq, is_provider, own, project, restart, restart_all,
  restart_container, restarting, stop_container,
}
use media_stack.Fleet.Stages.{restarts}
use media_stack.Fleet.Order.{Fleet, asked, restart_all-count, restart_all-ordered, targets}
use media_stack.Fleet.Guards.{AllGuarded, IsPanel, restart_and_stop-AllGuarded, start-AllGuarded}

abbrev panel : Container
panel = record { id = "p"; name = "control-panel"; status = "running" }

abbrev plex : Container
plex = record { id = "x"; name = "plex"; status = "running" }

abbrev nzbdav : Container
nzbdav = record { id = "n"; name = "nzbdav"; status = "running" }

abbrev rclone : Container
rclone = record { id = "r"; name = "nzbdav_rclone"; status = "exited" }

abbrev everyone : List Container
everyone = panel ∷ plex ∷ rclone ∷ nzbdav ∷ []

-- Docker, with every restart failing.
abbrev small : Docker
small = record {
  own_container = λ t. some (panel, "media");
  containers = λ t. some everyone;
  done_well = λ t. false;
}

abbrev small_fleet : Fleet small []
small_fleet = record {
  me = panel;
  label = "media";
  all = everyone;
  own_known = refl;
  labelled = refl;
  all_known = refl;
}

-- The mount first, its dependents after it, and what it rests on once more.
in_order :
    (restart_all small []).1
    ≡ own
      ∷ project "media"
      ∷ restart nzbdav
      ∷ healthy nzbdav
      ∷ restart rclone
      ∷ healthy rclone
      ∷ restart plex
      ∷ restart nzbdav
      ∷ []
unfolding restart_all keep mem_str
in_order = refl

some_target : 1 ≤ length (targets small [] small_fleet)
unfolding targets keep
some_target = omega arith

restart_all-count_example :
    (restart_all small []).0 ≡ ok (restarting (map (λ c. c.name) (targets small [] small_fleet)))
    × (count_if (restarts is_prereq) (restart_all small []).1
        ≡ count_if (restarts is_prereq) []
          + count_if is_prereq (targets small [] small_fleet)
          + count_if (λ c. is_prereq c && is_prereq c) (targets small [] small_fleet))
restart_all-count_example = restart_all-count small [] small_fleet is_prereq some_target

restart_all-ordered_example :
    (first : List Request) × (second : List Request) × ((restart_all small []).1
      ≡ asked small [] small_fleet ++ first ++ second)
    × (count_if (restarts (λ c. not (is_prereq c || is_provider c))) first ≡ 0)
    × (count_if (restarts is_provider) second ≡ 0)
restart_all-ordered_example = restart_all-ordered small [] small_fleet some_target

panel_known : IsPanel small "p"
unfolding IsPanel
panel_known t me label h = ap (λ o. elim o as (λ z. String) [ none ↦ "" | some f ↦ f.0.id ]) (sym h)

restart_and_stop-AllGuarded_example :
    AllGuarded small "p" "plex" panel_known true (restart_container small "plex" true []).1
    × AllGuarded small "p" "plex" panel_known false (stop_container small "plex" []).1
restart_and_stop-AllGuarded_example =
    restart_and_stop-AllGuarded small "p" "plex" panel_known true []
      (start-AllGuarded small "p" "plex" panel_known true)
      (start-AllGuarded small "p" "plex" panel_known false)
