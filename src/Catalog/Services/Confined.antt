-- ===== src/Catalog/Services/Confined.antt =====
-- What `install` of catalog/services.py lets a new container reach on the host.
use media_stack.Common.{
  All, All-append, Bool, Bool-cases, List, Option, String, [], all_of, arith, codes, if◌then◌else◌,
  inl, inr, none, refl, some, starts_with, str_eq, true, ℕ, ◌&&◌, ◌++◌, ◌||◌, ◌∙◌, ◌∷◌, ◌≡◌,
}
use media_stack.Common.Run.{Done, Keeps, Keeps-bind, Run, call, pure, raise}
use media_stack.Catalog.Entry.{Entry, Mount}
use media_stack.Catalog.Registry.{by_id, by_id-holds, catalog}
use media_stack.Catalog.Services.{
  Container, Docker, Error, Reply, Request, api_error, conflict_of, container_name, docker_error,
  find_container, finish_install, get, given, host_ports_in_use, install, install_entry,
  install_new, list_all, not_found, numbers, pull, pull_and_start, run, socket, spec_of, start,
  used_in, used_ports, volumes_of,
}

-- A named volume of the catalog, not a path of the host.
pub is_named : String × Mount → Bool
is_named v = starts_with (codes v.0) (codes "catalog_")

-- A mount that the program `cid` may have: the Docker socket is read-only but for Portainer.
pub may_mount : String → String × Mount → Bool
unfolding is_named
may_mount cid v =
    is_named v || str_eq v.0 socket && (str_eq v.1.mode "ro" || str_eq cid "portainer")

all_named : all_of (λ e. all_of is_named e.volumes) catalog ≡ true
unfolding all_of catalog is_named starts_with
all_named = refl

may_mount_named :
    (cid : String) (vs : List (String × Mount))
    → all_of is_named vs ≡ true
    → all_of (may_mount cid) vs ≡ true
unfolding all_of may_mount
may_mount_named cid [] h = refl
may_mount_named cid (v ∷ vs) h = ground (arith, h, may_mount_named cid vs (ground (arith, h)))

all_of-append {ℓ} :
    {A : Type ℓ} (p : A → Bool) (xs ys : List A)
    → all_of p (xs ++ ys) ≡ (all_of p xs && all_of p ys)
unfolding all_of
all_of-append p [] ys = refl
all_of-append p (x ∷ xs) ys = ground (arith, all_of-append p xs ys)

socket_mount :
    (cid : String)
    → may_mount cid
        (socket, record { bind = socket; mode = if str_eq cid "portainer" then "rw" else "ro" })
      ≡ true
unfolding may_mount
socket_mount cid = elim (Bool-cases (str_eq cid "portainer")) [
  | inl e ↦ rw e (ground arith)
  | inr e ↦ rw e (ground arith)
]

volumes_of-all :
    (cid : String) (e : Entry)
    → all_of is_named e.volumes ≡ true
    → all_of (may_mount cid) (volumes_of cid e) ≡ true
unfolding volumes_of all_of
volumes_of-all cid e h = elim (Bool-cases e.docker_sock) [
  | inl s ↦ rw s (
      all_of-append (may_mount cid) e.volumes _
      ∙ ground (arith, may_mount_named cid e.volumes h, socket_mount cid))
  | inr s ↦ rw s (may_mount_named cid e.volumes h)
]

-- What `install` may ask for: it reads, pulls, and creates a container under the program's own
-- name and label, on the stack's network, that mounts nothing else.
pub Confined : String → Request → Type 0
Confined cid (run spec) =
    (spec.name ≡ container_name cid)
    × (spec.network ≡ "stacknet")
    × (spec.labels ≡ ("media-stack.catalog", cid) ∷ [])
    × (all_of (may_mount cid) spec.volumes ≡ true)
Confined cid (get n) = n ≡ container_name cid
Confined cid list_all = Unit
Confined cid (pull image tag) = Unit
Confined cid _ = ⊥

pub AllConfined : String → List Request → Type 0
unfolding Confined
AllConfined cid t = All (Confined cid) t

pub start-AllConfined : (cid : String) → AllConfined cid []
unfolding AllConfined
start-AllConfined cid = tt

module _ (docker : Docker) (int : String → Option ℕ) (cid : String) where
  snoc-AllConfined :
      (t : List Request) (q : Request)
      → Confined cid q
      → AllConfined cid t
      → AllConfined cid (t ++ q ∷ [])
  unfolding AllConfined
  snoc-AllConfined t q r h = All-append (Confined cid) t (q ∷ []) h (r, tt)

  module _ (e : Entry) (named : all_of is_named e.volumes ≡ true) where
    finish-Keeps : (r : Reply Done) → Keeps (AllConfined cid) (finish_install docker int e r)
    unfolding finish_install
    finish-Keeps (given d) = λ t k. k
    finish-Keeps not_found = λ t k. k
    finish-Keeps api_error = λ t k. k

    start-Keeps : (r : Reply Done) → Keeps (AllConfined cid) (start docker int cid e r)
    unfolding start Confined spec_of
    start-Keeps (given d) =
        Keeps-bind (AllConfined cid) (call docker.started (run (spec_of cid e)))
          (finish_install docker int e)
          (λ t k.
            snoc-AllConfined t (run (spec_of cid e)) (refl, refl, refl, volumes_of-all cid e named)
              k)
          finish-Keeps
    start-Keeps not_found = λ t k. k
    start-Keeps api_error = λ t k. k

    pull-Keeps :
        (conflict : List ℕ) → Keeps (AllConfined cid) (pull_and_start docker int cid e conflict)
    unfolding pull_and_start Confined
    pull-Keeps [] =
        Keeps-bind (AllConfined cid) (call docker.pulled (pull e.image e.tag))
          (start docker int cid e) (λ t k. snoc-AllConfined t (pull e.image e.tag) tt k) start-Keeps
    pull-Keeps (n ∷ conflict) = λ t k. k

    numbers-Keeps : (o : Option (List ℕ)) → Keeps (AllConfined cid) (numbers docker int o)
    unfolding numbers
    numbers-Keeps none = λ t k. k
    numbers-Keeps (some used) = λ t k. k

    used_in-Keeps : (r : Reply (List Container)) → Keeps (AllConfined cid) (used_in docker int r)
    unfolding used_in
    used_in-Keeps (given cs) = numbers-Keeps (used_ports int cs)
    used_in-Keeps not_found = λ t k. k
    used_in-Keeps api_error = λ t k. k

    install_new-Keeps :
        (o : Option Container) → Keeps (AllConfined cid) (install_new docker int cid e o)
    unfolding install_new host_ports_in_use Confined
    install_new-Keeps (some c) = λ t k. k
    install_new-Keeps none =
        Keeps-bind (AllConfined cid) (host_ports_in_use docker int)
          (λ used. pull_and_start docker int cid e (conflict_of e used))
          (Keeps-bind (AllConfined cid) (call docker.containers list_all) (used_in docker int)
            (λ t k. snoc-AllConfined t list_all tt k) used_in-Keeps)
          (λ used. pull-Keeps (conflict_of e used))

  find-Keeps : Keeps (AllConfined cid) (find_container docker int cid)
  unfolding find_container Confined
  find-Keeps t k =
      go (docker.container t) (t ++ get (container_name cid) ∷ [])
        (snoc-AllConfined t (get (container_name cid)) refl k)
    where
      go :
          (r : Reply Container) (u : List Request)
          → AllConfined cid u
          → AllConfined cid
              ((elim r as (λ z. Run Request Error (Option Container)) [
                | given c ↦ pure (some c)
                | not_found ↦ pure none
                | api_error ↦ raise docker_error
              ])
                u).1
      go (given c) u h = h
      go not_found u h = h
      go api_error u h = h

-- Whatever is installed and whatever Docker answers, the only container that `install` ever asks
-- for has the program's own name and label, sits on the stack's network and mounts only the
-- catalog's named volumes and, at most, the Docker socket, which is read-only but for Portainer.
-- Nothing is stopped or removed on the way.
pub install-AllConfined :
    (docker : Docker) (int : String → Option ℕ) (cid : String)
    → Keeps (AllConfined cid) (install docker int cid)
unfolding install install_entry
install-AllConfined docker int cid =
    go (by_id cid catalog)
      (λ e h. (by_id-holds (λ a. all_of is_named a.volumes) cid catalog e all_named h).0)
  where
    go :
        (o : Option Entry)
        → ((e : Entry) → o ≡ some e → all_of is_named e.volumes ≡ true)
        → Keeps (AllConfined cid) (install_entry docker int cid o)
    go none named = λ t k. k
    go (some e) named =
        Keeps-bind (AllConfined cid) (find_container docker int cid) (install_new docker int cid e)
          (find-Keeps docker int cid) (install_new-Keeps docker int cid e (named e refl))
