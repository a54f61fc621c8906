-- ===== src/Catalog/Services/Remove.antt =====
-- Which volumes `remove` of catalog/services.py takes away.
use media_stack.Common.{
  All, All-append, Bool, Bool-cases, List, Option, String, [], any_of, ap, arith, false, inl, inr,
  map, mem_str, none, refl, some, str_eq, true, ℕ, ◌++◌, ◌||◌, ◌∙◌, ◌∷◌, ◌≡◌, ◌≢◌,
}
use media_stack.Common.Run.{Done, Keeps, Keeps-bind, Run, call, pure, raise, ◌>>=◌}
use media_stack.Catalog.Entry.{Entry, Mount}
use media_stack.Catalog.Registry.{by_id, by_id-clash_free, catalog, shares_port, shares_volume}
use media_stack.Catalog.Services.{
  Container, Docker, Error, Reply, Request, api_error, clear_volumes, container_name, docker_error,
  find_container, get, given, list_all, not_found, pull, remove, remove_container, remove_entry,
  remove_found, remove_volume, remove_volumes, run, stop, stop_and_remove, take_away, volume_names,
  volumes_removed,
}

-- The entry is another one's: it keeps the volume `v`.
IsSpared : String → String → Type 0
IsSpared x v =
    (y : String) (b : Entry) → by_id y catalog ≡ some b → x ≢ y → mem_str v (volume_names b) ≡ false

-- What `remove` may ask for: to delete a volume only if told to, and none of another program; to
-- stop and remove only the program's own container; and never to pull or to start.
pub Allowed : String → Bool → Request → Type 0
unfolding IsSpared
Allowed x wanted (get n) = n ≡ container_name x
Allowed x wanted list_all = Unit
Allowed x wanted (pull image tag) = ⊥
Allowed x wanted (run spec) = ⊥
Allowed x wanted (stop n) = n ≡ container_name x
Allowed x wanted (remove_container n) = n ≡ container_name x
Allowed x wanted (remove_volume v) = (wanted ≡ true) × IsSpared x v

module _ (x : String) (wanted : Bool) where
  pub AllAllowed : List Request → Type 0
  unfolding Allowed
  AllAllowed t = All (Allowed x wanted) t

  pub start-AllAllowed : AllAllowed []
  unfolding AllAllowed
  start-AllAllowed = tt

  snoc-AllAllowed :
      (t : List Request) (q : Request)
      → Allowed x wanted q
      → AllAllowed t
      → AllAllowed (t ++ q ∷ [])
  unfolding AllAllowed
  snoc-AllAllowed t q r h = All-append (Allowed x wanted) t (q ∷ []) h (r, tt)

module _ (docker : Docker) (int : String → Option ℕ) (x : String) where
  remove_volumes-Keeps :
      (vs : List String)
      → All (λ v. IsSpared x v) vs
      → Keeps (AllAllowed x true) (remove_volumes docker int vs)
  unfolding remove_volumes Allowed
  remove_volumes-Keeps [] h = λ t k. k
  remove_volumes-Keeps (v ∷ rest) h =
      Keeps-bind (AllAllowed x true) (call docker.volume_removed (remove_volume v)) after
        (λ t k. snoc-AllAllowed x true t (remove_volume v) (refl, h.0) k)
        (λ reply.
          Keeps-bind (AllAllowed x true) (remove_volumes docker int rest) (combine reply)
            (remove_volumes-Keeps rest h.1) (combined reply))
    where
      combine :
          Reply Done → List String × List String → Run Request Error (List String × List String)
      combine reply later = elim reply [
        | given d ↦ pure (v ∷ later.0, later.1)
        | not_found ↦ pure later
        | api_error ↦ pure (later.0, v ∷ later.1)
      ]

      after : Reply Done → Run Request Error (List String × List String)
      after reply = do later ← remove_volumes docker int rest; combine reply later

      combined :
          (reply : Reply Done) (later : List String × List String)
          → Keeps (AllAllowed x true) (combine reply later)
      combined (given d) later = λ t k. k
      combined not_found later = λ t k. k
      combined api_error later = λ t k. k

  clear_volumes-Keeps :
      (wanted : Bool) (vs : List String)
      → All (λ v. IsSpared x v) vs
      → Keeps (AllAllowed x wanted) (clear_volumes docker int wanted vs)
  unfolding clear_volumes
  clear_volumes-Keeps wanted [] h = λ t k. k
  clear_volumes-Keeps false (v ∷ rest) h = λ t k. k
  clear_volumes-Keeps true (v ∷ rest) h =
      Keeps-bind (AllAllowed x true) (remove_volumes docker int (v ∷ rest))
        (λ outcome. pure (volumes_removed outcome.0 outcome.1)) (remove_volumes-Keeps (v ∷ rest) h)
        (λ outcome t k. k)

  module _ (wanted : Bool) (e : Entry) (own : All (λ v. IsSpared x v) (volume_names e)) where
    take_away-Keeps :
        (r : Reply Done) → Keeps (AllAllowed x wanted) (take_away docker int e wanted r)
    unfolding take_away
    take_away-Keeps (given d) = clear_volumes-Keeps wanted (volume_names e) own
    take_away-Keeps not_found = λ t k. k
    take_away-Keeps api_error = λ t k. k

    stop_and_remove-Keeps :
        (r : Reply Done) → Keeps (AllAllowed x wanted) (stop_and_remove docker int x e wanted r)
    unfolding stop_and_remove Allowed
    stop_and_remove-Keeps (given d) =
        Keeps-bind (AllAllowed x wanted) (call docker.removed (remove_container (container_name x)))
          (take_away docker int e wanted)
          (λ t k. snoc-AllAllowed x wanted t (remove_container (container_name x)) refl k)
          take_away-Keeps
    stop_and_remove-Keeps not_found = λ t k. k
    stop_and_remove-Keeps api_error = λ t k. k

    remove_found-Keeps :
        (o : Option Container) → Keeps (AllAllowed x wanted) (remove_found docker int x e wanted o)
    unfolding remove_found Allowed
    remove_found-Keeps none = λ t k. k
    remove_found-Keeps (some c) =
        Keeps-bind (AllAllowed x wanted) (call docker.stopped (stop (container_name x)))
          (stop_and_remove docker int x e wanted)
          (λ t k. snoc-AllAllowed x wanted t (stop (container_name x)) refl k) stop_and_remove-Keeps

  find_container-Keeps : (wanted : Bool) → Keeps (AllAllowed x wanted) (find_container docker int x)
  unfolding find_container Allowed
  find_container-Keeps wanted t k =
      go (docker.container t) (t ++ get (container_name x) ∷ [])
        (snoc-AllAllowed x wanted t (get (container_name x)) refl k)
    where
      go :
          (r : Reply Container) (u : List Request)
          → AllAllowed x wanted u
          → AllAllowed x wanted
              ((elim r as (λ z. Run Request Error (Option Container)) [
                | given c ↦ pure (some c)
                | not_found ↦ pure none
                | api_error ↦ raise docker_error
              ])
                u).1
      go (given c) u h = h
      go not_found u h = h
      go api_error u h = h

mem_str-map :
    (v : String) (vs : List (String × Mount))
    → mem_str v (map (λ w. w.0) vs) ≡ any_of (λ w. str_eq w.0 v) vs
unfolding mem_str any_of
mem_str-map v [] = refl
mem_str-map v (w ∷ vs) = ap (λ b. str_eq w.0 v || b) (mem_str-map v vs)

-- The entry `b` has no volume among `vs`.
Misses : List (String × Mount) → Entry → Type 0
Misses vs b = any_of (λ v. any_of (λ w. str_eq w.0 v.0) b.volumes) vs ≡ false

spared :
    (x : String) (vs : List (String × Mount))
    → ((y : String) (b : Entry) → by_id y catalog ≡ some b → x ≢ y → Misses vs b)
    → All (λ v. IsSpared x v) (map (λ v. v.0) vs)
unfolding Misses IsSpared any_of
spared x [] misses = tt
spared x (v ∷ vs) misses = (
  λ y b k ne. mem_str-map v.0 b.volumes ∙ ground (arith, misses y b k ne),
  spared x vs (λ y b k ne. ground (arith, misses y b k ne)),
)

-- A volume of one program is none of another's.
own_volumes :
    (x : String) (a : Entry) → by_id x catalog ≡ some a → All (λ v. IsSpared x v) (volume_names a)
unfolding Misses any_of shares_volume
own_volumes x a h = spared x a.volumes misses
  where
    misses : (y : String) (b : Entry) → by_id y catalog ≡ some b → x ≢ y → Misses a.volumes b
    misses y b k ne = elim (Bool-cases (shares_volume a b)) [
      | inl shared ↦ absurd (ne (by_id-clash_free x y a b h k (rw shared or_true)))
      | inr apart ↦ apart
    ]
      where
        or_true : (shares_port a b || true) ≡ true
        or_true = ground arith

-- Whatever Docker answers, removing a program stops and removes no container but its own, starts
-- nothing, deletes volumes only if it is told to, and deletes none that another program of the
-- catalog uses.
pub remove-AllAllowed :
    (docker : Docker) (int : String → Option ℕ) (x : String) (wanted : Bool)
    → Keeps (AllAllowed x wanted) (remove docker int x wanted)
unfolding remove remove_entry
remove-AllAllowed docker int x wanted = go (by_id x catalog) (own_volumes x)
  where
    go :
        (o : Option Entry)
        → ((a : Entry) → o ≡ some a → All (λ v. IsSpared x v) (volume_names a))
        → Keeps (AllAllowed x wanted) (remove_entry docker int x wanted o)
    go none own = λ t k. k
    go (some e) own =
        Keeps-bind (AllAllowed x wanted) (find_container docker int x)
          (remove_found docker int x e wanted) (find_container-Keeps docker int x wanted)
          (remove_found-Keeps docker int x wanted e (own e refl))
