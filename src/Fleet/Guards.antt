-- ===== src/Fleet/Guards.antt =====
-- What the panel never does to a container: the guards of `restart_container` and
-- `stop_container` of host/services.py.
use mathlib.Core.Option.{some-injective}
use media_stack.Common.{
  All, All-append, Bool, Bool-cases, List, Option, String, [], false, find_first, if◌then◌else◌,
  inl, inr, none, not, refl, some, str_eq, sym, true, ◌&&◌, ◌++◌, ◌∷◌, ◌≡◌,
}
use media_stack.Common.Run.{Keeps, Run, pure, ◌>>=◌}
use media_stack.Fleet.{
  Container, Docker, Error, Request, Said, already, attempt, checked, find_project_container,
  listed, own, project, project_containers, restart, restart_container, restart_failed, restarted,
  start, stop, stop_container, stop_failed, stopped, with_own,
}

-- Docker always finds the same container as the panel's own.
unfoldable pub IsPanel : Docker → String → Type 0
IsPanel docker panel =
    (t : List Request) (me : Container) (label : String)
    → docker.own_container t ≡ some (me, label)
    → me.id ≡ panel

-- A restart or a stop is of the named container, which is not the panel, and Plex is restarted only
-- when activated; nothing is started.
pub Guarded : (panel name : String) (activated : Bool) → Request → Type 0
Guarded panel name activated (restart c) =
    (str_eq c.name name ≡ true)
    × (str_eq c.id panel ≡ false)
    × ((str_eq name "plex" && not activated) ≡ false)
Guarded panel name activated (stop c) =
    (str_eq c.name name ≡ true) × (str_eq c.id panel ≡ false) × (str_eq c.status "running" ≡ true)
Guarded panel name activated (start c) = ⊥
Guarded panel name activated _ = Unit

find_first-holds {ℓ} :
    {A : Type ℓ} (p : A → Bool) (xs : List A) (x : A) → find_first p xs ≡ some x → p x ≡ true
unfolding find_first
find_first-holds p [] x h = cc
find_first-holds p (a ∷ xs) x h = elim (Bool-cases (p a)) [
  | inl e ↦ let same = some-injective a x (rw e at h) in rw (sym same) e
  | inr e ↦ find_first-holds p xs x (rw e at h)
]

module _ (docker : Docker) (panel name : String) (self : IsPanel docker panel) where
  pub AllGuarded : Bool → List Request → Type 0
  unfolding Guarded
  AllGuarded activated t = All (Guarded panel name activated) t

  pub start-AllGuarded : (activated : Bool) → AllGuarded activated []
  unfolding AllGuarded
  start-AllGuarded activated = tt

  module _ (activated : Bool) where
    snoc-AllGuarded :
        (t : List Request) (q : Request)
        → Guarded panel name activated q
        → AllGuarded activated t
        → AllGuarded activated (t ++ q ∷ [])
    unfolding AllGuarded
    snoc-AllGuarded t q r h = All-append (Guarded panel name activated) t (q ∷ []) h (r, tt)

    attempt-Keeps :
        (q : Request) (failure : Error) (said : Said)
        → Guarded panel name activated q
        → Keeps (AllGuarded activated) (attempt docker q failure said)
    unfolding attempt
    attempt-Keeps q failure said g t k = elim (Bool-cases (docker.done_well t)) [
      | inl e ↦ rw e (snoc-AllGuarded t q g k)
      | inr e ↦ rw e (snoc-AllGuarded t q g k)
    ]

    -- What is done with the container that is found keeps the guard, if the container is the named
    -- one and not the panel.
    module _ (then_do : Container → Run Request Error Said)
        (keeps : (c : Container)
          → str_eq c.name name ≡ true
          → str_eq c.id panel ≡ false
          → Keeps (AllGuarded activated) (then_do c)) where
      checked-Keeps :
          (me : Container) (o : Option Container)
          → me.id ≡ panel
          → ((c : Container) → o ≡ some c → str_eq c.name name ≡ true)
          → Keeps (AllGuarded activated) (do c ← checked docker true me name o; then_do c)
      unfolding checked
      checked-Keeps me none mine named = λ t k. k
      checked-Keeps me (some c) mine named = elim (Bool-cases (str_eq c.id me.id)) [
        | inl e ↦ λ t k. rw e k
        | inr e ↦ λ t k. rw e (keeps c (named c refl) (rw (sym mine) e) t k)
      ]

      after_fleet : Run Request Error (Container × List Container) → Run Request Error Said
      after_fleet m = do
        c ← (do f ← m; checked docker true f.0 name (find_first (λ d. str_eq d.name name) f.1))
        then_do c

      listed-Keeps :
          (me : Container) (o : Option (List Container))
          → me.id ≡ panel
          → Keeps (AllGuarded activated) (after_fleet (listed docker me o))
      unfolding listed after_fleet
      listed-Keeps me none mine = λ t k. k
      listed-Keeps me (some cs) mine =
          checked-Keeps me (find_first (λ d. str_eq d.name name) cs) mine
            (find_first-holds (λ d. str_eq d.name name) cs)

      with_own-Keeps :
          (o : Option (Container × String))
          → ((me : Container) (label : String) → o ≡ some (me, label) → me.id ≡ panel)
          → Keeps (AllGuarded activated) (after_fleet (with_own docker o))
      unfolding with_own after_fleet Guarded
      with_own-Keeps none mine = λ t k. k
      with_own-Keeps (some (me, label)) mine = elim (Bool-cases (str_eq label "")) [
        | inl e ↦ λ t k. rw e k
        | inr e ↦ λ t k. rw e (
            listed-Keeps me (docker.containers t) (mine me label refl) (t ++ project label ∷ [])
              (snoc-AllGuarded t (project label) tt k))
      ]

      find-Keeps :
          Keeps (AllGuarded activated) (do c ← find_project_container docker name true; then_do c)
      unfolding find_project_container project_containers after_fleet Guarded IsPanel
      find-Keeps t k =
          with_own-Keeps (docker.own_container t) (self t) (t ++ own ∷ [])
            (snoc-AllGuarded t own tt k)

  -- If Docker always finds the same container as the panel's own, `restart_container` restarts no
  -- container but one of the given name, never the panel, and Plex only when `activated` is given.
  restart_container-AllGuarded :
      (activated : Bool) → Keeps (AllGuarded activated) (restart_container docker name activated)
  unfolding restart_container Guarded
  restart_container-AllGuarded activated = elim (Bool-cases (str_eq name "plex" && not activated)) [
    | inl e ↦ λ t k. rw e k
    | inr e ↦ λ t k. rw e (
        find-Keeps activated (λ c. attempt docker (restart c) restart_failed (restarted c))
          (λ c named other.
            attempt-Keeps activated (restart c) restart_failed (restarted c)
              (restart-Guarded activated c named other e))
          t k)
  ]
    where
      restart-Guarded :
          (given : Bool) (c : Container)
          → str_eq c.name name ≡ true
          → str_eq c.id panel ≡ false
          → (str_eq name "plex" && not given) ≡ false
          → Guarded panel name given (restart c)
      restart-Guarded given c named other e = (named, other, e)

  stop_found : Container → Run Request Error Said
  stop_found c =
      if not (str_eq c.status "running")
      then pure (already c)
      else attempt docker (stop c) stop_failed (stopped c)

  stop_found-Keeps :
      (c : Container)
      → str_eq c.name name ≡ true
      → str_eq c.id panel ≡ false
      → Keeps (AllGuarded false) (stop_found c)
  unfolding stop_found Guarded
  stop_found-Keeps c named other = elim (Bool-cases (str_eq c.status "running")) [
    | inl e ↦
        λ t k. rw e (attempt-Keeps false (stop c) stop_failed (stopped c) (named, other, e) t k)
    | inr e ↦ λ t k. rw e k
  ]

  -- If Docker always finds the same container as the panel's own, `stop_container` stops no
  -- container but one of the given name, only while it runs, and never the panel.
  stop_container-AllGuarded : Keeps (AllGuarded false) (stop_container docker name)
  unfolding stop_container stop_found
  stop_container-AllGuarded = find-Keeps false stop_found stop_found-Keeps

  -- If Docker always finds the same container as the panel's own, `restart_container` restarts no
  -- container but one of the given name, never the panel, and Plex only when `activated` is given;
  -- and `stop_container` stops no container but one of the given name, only while it runs, and never
  -- the panel.
  pub restart_and_stop-AllGuarded :
      (activated : Bool) (t : List Request)
      → AllGuarded activated t
      → AllGuarded false t
      → AllGuarded activated (restart_container docker name activated t).1
        × AllGuarded false (stop_container docker name t).1
  restart_and_stop-AllGuarded activated t h k =
      (restart_container-AllGuarded activated t h, stop_container-AllGuarded t k)
