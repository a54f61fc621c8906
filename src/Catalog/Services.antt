-- ===== src/Catalog/Services.antt =====
-- catalog/services.py: what is asked of Docker to list, install and remove a program. What Docker
-- answers is a parameter. `int` of a text is a parameter too; `none` is its ValueError.
pub mod Confined
pub mod Install
pub mod Remove
mod Examples
use Prim.Native.String
use media_stack.Common.{
  Bool, List, Option, String, [], false, if◌then◌else◌, keep, map, none, option_map, some, str_eq,
  true, ℕ, ◌++◌, ◌∷◌,
}
use media_stack.Common.Run.{Done, Run, call, pure, raise, ◌>>=◌}
use media_stack.Catalog.Entry.{Entry, Mount}
use media_stack.Catalog.Registry.{by_id, catalog, catalog_label, host_ports, mem_num, network}

-- A container as `docker_client` shows it: `port_bindings` holds the "HostPort" of each binding.
pub record Container : Type 0 where
  pub name : String
  pub status : String
  pub port_bindings : List (List (Option String))

-- The arguments of `docker_client.containers.run`.
pub record Spec : Type 0 where
  pub image : String × String
  pub name : String
  pub network : String
  pub ports : List (String × ℕ)
  pub volumes : List (String × Mount)
  pub environment : List (String × String)
  pub cap_add : Option (List String)
  pub command : Option (List String)
  pub restart_policy : String
  pub labels : List (String × String)

pub data Request : Type 0 where
  get : (name : String) → Request
  list_all : Request
  pull : (image tag : String) → Request
  run : Spec → Request
  stop : (name : String) → Request
  remove_container : (name : String) → Request
  -- `docker_client.volumes.get(name).remove()`
  remove_volume : (name : String) → Request

-- docker.errors.NotFound, any other docker.errors.APIError, or what was asked for.
pub data Reply {ℓ} (A : Type ℓ) : Type ℓ where
  given : A → Reply A
  not_found : Reply A
  api_error : Reply A

pub data Error : Type 0 where
  unknown_entry : String → Error
  already_installed not_installed : Error
  port_conflict : (conflict wanted : List ℕ) → Error
  pull_failed start_failed remove_failed : Error
  docker_error value_error : Error

-- The HTTP status of the reply; what is not a ServiceError ends in Django's own 500.
unfoldable pub status_code : Error → ℕ
status_code (unknown_entry cid) = 404
status_code not_installed = 404
status_code already_installed = 409
status_code (port_conflict conflict wanted) = 409
status_code docker_error = 500
status_code value_error = 500
status_code _ = 502

pub record Docker : Type 0 where
  pub container : List Request → Reply Container
  pub containers : List Request → Reply (List Container)
  pub pulled : List Request → Reply Done
  pub started : List Request → Reply Done
  pub stopped : List Request → Reply Done
  pub removed : List Request → Reply Done
  pub volume_removed : List Request → Reply Done

-- `f"catalog-{catalog_id}"`
abbrev pub container_name : String → String
container_name cid = String.◌++◌ "catalog-" cid

-- "/var/run/docker.sock" as `volumes` binds it.
abbrev pub socket : String
socket = "/var/run/docker.sock"

unfoldable pub volumes_of : String → Entry → List (String × Mount)
volumes_of cid e =
    if e.docker_sock
    then e.volumes
      ++ (socket, record { bind = socket; mode = if str_eq cid "portainer" then "rw" else "ro" })
        ∷ []
    else e.volumes

unfoldable pub spec_of : String → Entry → Spec
unfolding volumes_of
spec_of cid e = record {
  image = (e.image, e.tag);
  name = container_name cid;
  network = network;
  ports = e.ports;
  volumes = volumes_of cid e;
  environment = e.environment;
  cap_add = elim e.cap_add [ [] ↦ none | c ∷ cs ↦ some (c ∷ cs) ];
  command = e.command;
  restart_policy = "unless-stopped";
  labels = (catalog_label, cid) ∷ [];
}

-- What two parts of a set add up to, unless one raises.
unfoldable pub joint : Option (List ℕ) → Option (List ℕ) → Option (List ℕ)
joint (some ns) (some ms) = some (ns ++ ms)
joint _ _ = none

-- The ports of one container's bindings: an empty or missing "HostPort" is passed over.
unfoldable pub binding_ports : (String → Option ℕ) → List (Option String) → Option (List ℕ)
unfolding joint
binding_ports int [] = some []
binding_ports int (none ∷ rest) = binding_ports int rest
binding_ports int (some t ∷ rest) =
    let later = binding_ports int rest in
    if str_eq t "" then later else joint (option_map (λ n. n ∷ []) (int t)) later

unfoldable pub ports_of : (String → Option ℕ) → List (List (Option String)) → Option (List ℕ)
unfolding binding_ports
ports_of int [] = some []
ports_of int (bindings ∷ rest) = joint (binding_ports int bindings) (ports_of int rest)

-- `_host_ports_in_use`, on the containers that Docker lists; `install` excludes none of them.
unfoldable pub used_ports : (String → Option ℕ) → List Container → Option (List ℕ)
unfolding ports_of
used_ports int [] = some []
used_ports int (c ∷ rest) = joint (ports_of int c.port_bindings) (used_ports int rest)

-- `wanted_ports & used`
unfoldable pub conflict_of : Entry → List ℕ → List ℕ
unfolding mem_num
conflict_of e used = keep (λ n. mem_num n used) (host_ports e)

abbrev pub volume_names : Entry → List String
volume_names e = map (λ v. v.0) e.volumes

-- What `remove` says about the volumes.
pub data VolumeNote : Type 0 where
  no_volumes kept : VolumeNote
  volumes_removed : (removed failed : List String) → VolumeNote

module _ (docker : Docker) (int : String → Option ℕ) where
  -- `_find_container`
  unfoldable pub find_container : String → Run Request Error (Option Container)
  find_container cid = do
    reply ← call docker.container (get (container_name cid))
    elim reply [ given c ↦ pure (some c) | not_found ↦ pure none | api_error ↦ raise docker_error ]

  unfoldable pub numbers : Option (List ℕ) → Run Request Error (List ℕ)
  numbers none = raise value_error
  numbers (some used) = pure used

  unfoldable pub used_in : Reply (List Container) → Run Request Error (List ℕ)
  unfolding used_ports numbers
  used_in (given cs) = numbers (used_ports int cs)
  used_in _ = raise docker_error

  unfoldable pub host_ports_in_use : Run Request Error (List ℕ)
  unfolding used_in
  host_ports_in_use = do reply ← call docker.containers list_all; used_in reply

  unfoldable pub finish_install : Entry → Reply Done → Run Request Error (List ℕ)
  finish_install e (given d) = pure (host_ports e)
  finish_install e _ = raise start_failed

  unfoldable pub start : String → Entry → Reply Done → Run Request Error (List ℕ)
  unfolding finish_install spec_of
  start cid e (given d) = do
    started ← call docker.started (run (spec_of cid e))
    finish_install e started
  start cid e _ = raise pull_failed

  unfoldable pub pull_and_start : String → Entry → List ℕ → Run Request Error (List ℕ)
  unfolding start
  pull_and_start cid e (n ∷ conflict) = raise (port_conflict (n ∷ conflict) (host_ports e))
  pull_and_start cid e [] = do pulled ← call docker.pulled (pull e.image e.tag); start cid e pulled

  unfoldable pub install_new : String → Entry → Option Container → Run Request Error (List ℕ)
  unfolding host_ports_in_use pull_and_start conflict_of
  install_new cid e (some c) = raise already_installed
  install_new cid e none = do used ← host_ports_in_use; pull_and_start cid e (conflict_of e used)

  unfoldable pub install_entry : String → Option Entry → Run Request Error (List ℕ)
  unfolding find_container install_new
  install_entry cid none = raise (unknown_entry cid)
  install_entry cid (some e) = do found ← find_container cid; install_new cid e found

  -- `install`; it gives the ports of its message.
  unfoldable pub install : String → Run Request Error (List ℕ)
  unfolding install_entry by_id
  install cid = install_entry cid (by_id cid catalog)

  -- The loop over `entry["volumes"]`: the names removed and those that failed.
  unfoldable pub remove_volumes : List String → Run Request Error (List String × List String)
  remove_volumes [] = pure ([], [])
  remove_volumes (v ∷ rest) = do
    reply ← call docker.volume_removed (remove_volume v)
    later ← remove_volumes rest
    elim reply [
      | given d ↦ pure (v ∷ later.0, later.1)
      | not_found ↦ pure later
      | api_error ↦ pure (later.0, v ∷ later.1)
    ]

  unfoldable pub clear_volumes : Bool → List String → Run Request Error VolumeNote
  unfolding remove_volumes
  clear_volumes wanted [] = pure no_volumes
  clear_volumes false (v ∷ rest) = pure kept
  clear_volumes true (v ∷ rest) = do
    outcome ← remove_volumes (v ∷ rest)
    pure (volumes_removed outcome.0 outcome.1)

  -- `c.remove(v=False)`, then what follows it.
  unfoldable pub take_away : Entry → Bool → Reply Done → Run Request Error VolumeNote
  unfolding clear_volumes
  take_away e wanted (given d) = clear_volumes wanted (volume_names e)
  take_away e wanted _ = raise remove_failed

  unfoldable pub stop_and_remove : String → Entry → Bool → Reply Done → Run Request Error VolumeNote
  unfolding take_away
  stop_and_remove cid e wanted (given d) = do
    removed ← call docker.removed (remove_container (container_name cid))
    take_away e wanted removed
  stop_and_remove cid e wanted _ = raise remove_failed

  unfoldable pub remove_found :
      String → Entry → Bool → Option Container → Run Request Error VolumeNote
  unfolding stop_and_remove
  remove_found cid e wanted none = raise not_installed
  remove_found cid e wanted (some c) = do
    stopped ← call docker.stopped (stop (container_name cid))
    stop_and_remove cid e wanted stopped

  unfoldable pub remove_entry : String → Bool → Option Entry → Run Request Error VolumeNote
  unfolding find_container remove_found
  remove_entry cid wanted none = raise (unknown_entry cid)
  remove_entry cid wanted (some e) = do found ← find_container cid; remove_found cid e wanted found

  unfoldable pub remove : String → Bool → Run Request Error VolumeNote
  unfolding remove_entry by_id
  remove cid wanted = remove_entry cid wanted (by_id cid catalog)
