-- ===== src/Catalog/Services/Install.antt =====
-- When `install` of catalog/services.py succeeds, and when it creates a container.
use media_stack.Common.{
  Bool, List, Option, String, [], all_of, arith, count_if, count_if-append, false, keep, none, not,
  one_if, refl, some, sym, true, ℕ, ◌&&◌, ◌++◌, ◌+◌, ◌∙◌, ◌∷◌, ◌≡◌,
}
use media_stack.Common.Run.{Done, Result, Run, err, ok, pure, raise, ◌>>=◌}
use media_stack.Catalog.Entry.{Entry}
use media_stack.Catalog.Registry.{by_id, catalog, host_ports, mem_num}
use media_stack.Catalog.Services.{
  Container, Docker, Error, Reply, Request, api_error, conflict_of, container_name, docker_error,
  find_container, finish_install, get, given, host_ports_in_use, install, install_entry,
  install_new, list_all, not_found, numbers, pull, pull_and_start, run, spec_of, start, used_in,
  used_ports,
}

pub is_given {ℓ} : {A : Type ℓ} → Reply A → Bool
is_given (given a) = true
is_given _ = false

pub is_missing {ℓ} : {A : Type ℓ} → Reply A → Bool
is_missing not_found = true
is_missing _ = false

pub is_ok {ℓ κ} : {E : Type ℓ} {A : Type κ} → Result E A → Bool
is_ok (ok a) = true
is_ok (err e) = false

pub is_run : Request → Bool
is_run (run spec) = true
is_run _ = false

-- No port that the entry wants is among the used ones.
pub free_of : Entry → Option (List ℕ) → Bool
free_of e none = false
free_of e (some used) = all_of (λ n. not (mem_num n used)) (host_ports e)

is_nil {ℓ} : {A : Type ℓ} → List A → Bool
is_nil [] = true
is_nil (x ∷ xs) = false

is_nil-keep {ℓ} :
    {A : Type ℓ} (p : A → Bool) (xs : List A) → is_nil (keep p xs) ≡ all_of (λ x. not (p x)) xs
unfolding keep all_of is_nil
is_nil-keep p [] = refl
is_nil-keep p (x ∷ xs) = ground (arith, is_nil-keep p xs)

-- The action returns just if `good`, and creates one container if `made` and none otherwise.
Ends : Run Request Error (List ℕ) → List Request → (good made : Bool) → Type 0
unfolding is_ok is_run
Ends m t good made =
    (is_ok (m t).0 ≡ good) × (count_if is_run (m t).1 ≡ count_if is_run t + one_if made)

count_snoc :
    (t : List Request) (q : Request)
    → count_if is_run (t ++ q ∷ []) ≡ count_if is_run t + one_if (is_run q)
unfolding count_if
count_snoc t q = ground (arith, count_if-append is_run t (q ∷ []))

-- An action whose first request is not a creation.
read_first :
    (m : Run Request Error (List ℕ)) (t : List Request) (q : Request) (good made : Bool)
    → is_run q ≡ false
    → Ends m (t ++ q ∷ []) good made
    → (is_ok (m (t ++ q ∷ [])).0 ≡ good)
      × (count_if is_run (m (t ++ q ∷ [])).1 ≡ count_if is_run t + one_if made)
unfolding Ends
read_first m t q good made r h = (h.0, omega (arith, h.1, plain))
  where
    plain : count_if is_run (t ++ q ∷ []) ≡ count_if is_run t
    plain = count_snoc t q ∙ (rw r (omega arith))

and_assoc : (a b c d : Bool) → (a && (b && (c && d))) ≡ (a && (b && c) && d)
and_assoc a b c d = ground arith

module _ (docker : Docker) (int : String → Option ℕ) (cid : String) (e : Entry) where
  finish-Ends :
      (r : Reply Done) (t : List Request)
      → Ends (finish_install docker int e r) t (is_given r) false
  unfolding Ends finish_install is_given is_ok
  finish-Ends (given d) t = (refl, omega arith)
  finish-Ends not_found t = (refl, omega arith)
  finish-Ends api_error t = (refl, omega arith)

  -- Where the pull is answered by `r`, with the requests `t` sent.
  start-Ends :
      (r : Reply Done) (t : List Request)
      → Ends (start docker int cid e r) t (is_given r && is_given (docker.started t)) (is_given r)
  unfolding Ends start is_given is_ok
  start-Ends (given d) t =
      let rest = finish-Ends (docker.started t) (t ++ run (spec_of cid e) ∷ []) in
      (rest.0, omega (arith, rest.1, count_snoc t (run (spec_of cid e))))
  start-Ends not_found t = (refl, omega arith)
  start-Ends api_error t = (refl, omega arith)

  pull_request : Request
  pull_request = pull e.image e.tag

  -- What follows a set of used ports, with the requests `t` sent.
  pull_and_start-Ends :
      (conflict : List ℕ) (t : List Request)
      → Ends
          (pull_and_start docker int cid e conflict)
          t
          (is_nil conflict
            && (is_given (docker.pulled t) && is_given (docker.started (t ++ pull_request ∷ []))))
          (is_nil conflict && is_given (docker.pulled t))
  unfolding Ends pull_and_start is_nil is_ok pull_request
  pull_and_start-Ends [] t =
      read_first (start docker int cid e (docker.pulled t)) t pull_request
        (is_given (docker.pulled t) && is_given (docker.started (t ++ pull_request ∷ [])))
        (is_given (docker.pulled t)) refl (start-Ends (docker.pulled t) (t ++ pull_request ∷ []))
  pull_and_start-Ends (n ∷ conflict) t = (refl, omega arith)

  -- The ports in use by the listed containers; none where the listing or an `int` fails.
  listed_ports : Reply (List Container) → Option (List ℕ)
  listed_ports (given cs) = used_ports int cs
  listed_ports _ = none

  pub goes_ahead : Reply (List Container) → Bool
  unfolding listed_ports
  goes_ahead listing = free_of e (listed_ports listing)

  -- What follows the used ports, with the requests `t` sent.
  continue_with : Run Request Error (List ℕ) → Run Request Error (List ℕ)
  continue_with m = do used ← m; pull_and_start docker int cid e (conflict_of e used)

  numbers-Ends :
      (o : Option (List ℕ)) (t : List Request)
      → Ends
          (continue_with (numbers docker int o))
          t
          (free_of e o
            && (is_given (docker.pulled t) && is_given (docker.started (t ++ pull_request ∷ []))))
          (free_of e o && is_given (docker.pulled t))
  unfolding continue_with numbers free_of is_ok Ends keep conflict_of
  numbers-Ends none t = (refl, omega arith)
  numbers-Ends (some used) t =
      rw (sym (is_nil-keep (λ n. mem_num n used) (host_ports e)))
        (pull_and_start-Ends (conflict_of e used) t)

  listed-Ends :
      (r : Reply (List Container)) (t : List Request)
      → Ends
          (continue_with (used_in docker int r))
          t
          (goes_ahead r
            && (is_given (docker.pulled t) && is_given (docker.started (t ++ pull_request ∷ []))))
          (goes_ahead r && is_given (docker.pulled t))
  unfolding continue_with used_in goes_ahead listed_ports free_of is_ok Ends
  listed-Ends not_found t = (refl, omega arith)
  listed-Ends api_error t = (refl, omega arith)
  listed-Ends (given cs) t = numbers-Ends (used_ports int cs) t

  get_request : Request
  get_request = get (container_name cid)

  -- What `install` does after the container is looked for, with the requests `t` sent.
  find_then : Reply Container → Run Request Error (List ℕ)
  find_then reply = do
    found ← elim reply as (λ z. Run Request Error (Option Container)) [
      | given c ↦ pure (some c)
      | not_found ↦ pure none
      | api_error ↦ raise docker_error
    ]
    install_new docker int cid e found

  found-Ends :
      (r : Reply Container) (t : List Request)
      → Ends
          (find_then r)
          t
          (is_missing r
            && (goes_ahead (docker.containers t)
                && (is_given (docker.pulled (t ++ list_all ∷ []))
                    && is_given (docker.started (t ++ list_all ∷ [] ++ pull_request ∷ [])))))
          (is_missing r
            && (goes_ahead (docker.containers t) && is_given (docker.pulled (t ++ list_all ∷ []))))
  unfolding find_then install_new host_ports_in_use is_missing is_ok Ends continue_with
  found-Ends (given c) t = (refl, omega arith)
  found-Ends api_error t = (refl, omega arith)
  found-Ends not_found t =
      read_first (continue_with (used_in docker int (docker.containers t))) t list_all
        (goes_ahead (docker.containers t)
          && (is_given (docker.pulled (t ++ list_all ∷ []))
              && is_given (docker.started (t ++ list_all ∷ [] ++ pull_request ∷ []))))
        (goes_ahead (docker.containers t) && is_given (docker.pulled (t ++ list_all ∷ []))) refl
        (listed-Ends (docker.containers t) (t ++ list_all ∷ []))

  -- The requests sent before the listing, the pull and the start of an installation.
  pub at_listing : List Request → List Request
  unfolding get_request
  at_listing t = t ++ get_request ∷ []

  pub at_pull : List Request → List Request
  unfolding at_listing
  at_pull t = at_listing t ++ list_all ∷ []

  pub at_start : List Request → List Request
  unfolding at_pull pull_request
  at_start t = at_pull t ++ pull_request ∷ []

  -- A container is asked for.
  pub creates : List Request → Bool
  creates t =
      is_missing (docker.container t)
      && (goes_ahead (docker.containers (at_listing t)) && is_given (docker.pulled (at_pull t)))

  -- Installing a program of the catalog asks Docker for one new container just if it has none of
  -- that name, no container that is listed holds a port that the program wants, and the image is
  -- pulled; in every other case it asks for none. It succeeds just if Docker then starts it.
  pub install_lem :
      (t : List Request)
      → by_id cid catalog ≡ some e
      → (is_ok (install docker int cid t).0 ≡ (creates t && is_given (docker.started (at_start t))))
        × (count_if is_run (install docker int cid t).1 ≡ count_if is_run t + one_if (creates t))
  unfolding install install_entry find_container Ends find_then creates at_start at_pull at_listing
      get_request pull_request is_run
  install_lem t known =
      let ended = found-Ends (docker.container t) (t ++ get_request ∷ []) in
      rw known (
        ended.0
            ∙ and_assoc (is_missing (docker.container t))
                (goes_ahead (docker.containers (at_listing t)))
                (is_given (docker.pulled (at_pull t))) (is_given (docker.started (at_start t))),
        omega (arith, ended.1, count_snoc t get_request),
      )
