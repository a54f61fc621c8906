-- ===== src/Fleet.antt =====
-- core/docker_client.py and host/services.py: the containers of the compose project, and how the
-- panel restarts, stops and starts them. What Docker answers is a parameter.
pub mod Stages
pub mod Order
pub mod Guards
mod Examples
use media_stack.Common.{
  Bool, List, Option, String, [], false, find_first, if◌then◌else◌, keep, map, mem_str, none, not,
  some, str_eq, true, ◌&&◌, ◌++◌, ◌∷◌,
}
use media_stack.Common.Run.{Done, Run, call, done, pure, raise, ◌>>=◌}

pub record Container : Type 0 where
  pub id : String
  pub name : String
  pub status : String

-- The requests to Docker: `own` is the lookup of the panel's own container, `healthy` the wait of
-- `wait_for_healthy`, which returns in any case.
pub data Request : Type 0 where
  own : Request
  project : (name : String) → Request
  restart : Container → Request
  stop : Container → Request
  start : Container → Request
  healthy : Container → Request

pub data Error : Type 0 where
  plex_not_activated : Error
  no_own_record no_project_label : Error
  not_in_project : String → Error
  is_the_panel : Error
  no_other_containers : Error
  restart_failed stop_failed start_failed : Error
  docker_error : Error

-- What the lookup of the own container gives: none is docker.errors.NotFound (any other failure ends
-- the action at once and is left out); the text is its
-- compose project label, where a missing one and the empty text are alike.
pub record Docker : Type 0 where
  pub own_container : List Request → Option (Container × String)
  pub containers : List Request → Option (List Container)
  pub done_well : List Request → Bool

-- What a service answers: which text, with its container or the names, which the text has sorted.
pub data Said : Type 0 where
  restarted : Container → Said
  stopped : Container → Said
  started : Container → Said
  already : Container → Said
  restarting : (names : List String) → Said

abbrev pub mount_prereqs : List String
mount_prereqs = "nzbdav" ∷ []

abbrev pub mount_providers : List String
mount_providers = "nzbdav_rclone" ∷ []

abbrev pub mount_dependents : List String
mount_dependents = "radarr" ∷ "sonarr" ∷ "plex" ∷ "unpackerr" ∷ "cleanuparr" ∷ []

abbrev pub is_prereq : Container → Bool
is_prereq c = mem_str c.name mount_prereqs

abbrev pub is_provider : Container → Bool
is_provider c = mem_str c.name mount_providers

abbrev pub is_dependent : Container → Bool
is_dependent c = mem_str c.name mount_dependents

-- `c.name not in staged`
abbrev pub is_rest : Container → Bool
is_rest c = not (mem_str c.name (mount_prereqs ++ mount_providers ++ mount_dependents))

-- `[c for c in containers if c.id != me.id]`
abbrev pub others : Container → List Container → List Container
others me cs = keep (λ c. not (str_eq c.id me.id)) cs

module _ (docker : Docker) where
  unfoldable pub listed :
      Container → Option (List Container) → Run Request Error (Container × List Container)
  listed me none = raise docker_error
  listed me (some cs) = pure (me, cs)

  unfoldable pub with_own :
      Option (Container × String) → Run Request Error (Container × List Container)
  unfolding listed
  with_own none = raise no_own_record
  with_own (some (me, label)) =
      if str_eq label ""
      then raise no_project_label
      else do answer ← call docker.containers (project label); listed me answer

  unfoldable pub project_containers : Run Request Error (Container × List Container)
  unfolding with_own
  project_containers = do mine ← call docker.own_container own; with_own mine

  unfoldable pub checked :
      Bool → Container → String → Option Container → Run Request Error Container
  checked reject_self me name none = raise (not_in_project name)
  checked reject_self me name (some c) =
      if reject_self && str_eq c.id me.id then raise is_the_panel else pure c

  unfoldable pub find_project_container : String → Bool → Run Request Error Container
  unfolding project_containers checked
  find_project_container name reject_self = do
    fleet ← project_containers
    checked reject_self fleet.0 name (find_first (λ c. str_eq c.name name) fleet.1)

  -- A request in a `try`: its own failure is raised as a ServiceError.
  unfoldable pub attempt : Request → Error → Said → Run Request Error Said
  attempt q failure said = do
    good ← call docker.done_well q
    if good then pure said else raise failure

  unfoldable pub restart_container : String → Bool → Run Request Error Said
  unfolding find_project_container attempt
  restart_container name activated =
      if str_eq name "plex" && not activated
      then raise plex_not_activated
      else do c ← find_project_container name true; attempt (restart c) restart_failed (restarted c)

  unfoldable pub stop_container : String → Run Request Error Said
  unfolding find_project_container attempt
  stop_container name = do
    c ← find_project_container name true
    if not (str_eq c.status "running")
        then pure (already c)
        else attempt (stop c) stop_failed (stopped c)

  unfoldable pub start_container : String → Run Request Error Said
  unfolding find_project_container attempt
  start_container name = do
    c ← find_project_container name false
    if str_eq c.status "running"
        then pure (already c)
        else attempt (start c) start_failed (started c)

  -- A loop of `worker`: what a request fails with is only printed.
  unfoldable pub for_each : (Container → Request) → List Container → Run Request Error Done
  for_each f [] = pure done
  for_each f (c ∷ rest) = do _ ← call docker.done_well (f c); for_each f rest

  -- `worker` of `restart_all`, on its targets.
  unfoldable pub worker : List Container → Run Request Error Done
  unfolding for_each
  worker targets = do
    _ ← for_each restart (keep is_prereq targets)
    _ ← for_each healthy (keep is_prereq targets)
    _ ← for_each restart (keep is_provider targets)
    _ ← for_each healthy (keep is_provider targets)
    _ ← for_each restart (keep is_rest targets)
    _ ← for_each restart (keep is_dependent targets)
    for_each restart (keep is_prereq targets)

  -- What follows the targets; the thread's requests come in its own order, and nothing waits for it.
  unfoldable pub restart_targets : List Container → Run Request Error Said
  unfolding worker
  restart_targets [] = raise no_other_containers
  restart_targets (c ∷ targets) = do
    _ ← worker (c ∷ targets)
    pure (restarting (map (λ d. d.name) (c ∷ targets)))

  unfoldable pub restart_all : Run Request Error Said
  unfolding restart_targets project_containers
  restart_all = do fleet ← project_containers; restart_targets (others fleet.0 fleet.1)
