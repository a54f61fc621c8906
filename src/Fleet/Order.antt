-- ===== src/Fleet/Order.antt =====
-- What `restart_all` of host/services.py restarts, how often and in which order.
use mathlib.Core.List.{append_assoc, append-nil}
use media_stack.Common.{
  Bool, List, String, [], ap, arith, count_if, count_if-append, false, keep, length, map, not, refl,
  some, str_eq, sym, ◌&&◌, ◌++◌, ◌+◌, ◌||◌, ◌∙◌, ◌∷◌, ◌≡◌, ◌≤◌,
}
use media_stack.Common.Run.{Done, Result, Run, done, err, ok, pure, run-bind, ◌>>=◌}
use media_stack.Fleet.Stages.{
  all_stages, count-healthy, count-restart, count_if-none, no_dependent_provider,
  no_prereq_provider, no_provider, restarts,
}
use media_stack.Fleet.{
  Container, Docker, Error, Request, for_each, healthy, is_dependent, is_prereq, is_provider,
  is_rest, listed, others, own, project, project_containers, restart, restart_all, restart_targets,
  restarting, with_own, worker,
}

-- The requests of `worker`, in order: up to the wait for the providers, and after it.
pub first_half : List Container → List Request
first_half cs =
    map restart (keep is_prereq cs)
    ++ map healthy (keep is_prereq cs)
    ++ map restart (keep is_provider cs)
    ++ map healthy (keep is_provider cs)

pub second_half : List Container → List Request
second_half cs =
    map restart (keep is_rest cs)
    ++ map restart (keep is_dependent cs)
    ++ map restart (keep is_prereq cs)

for_each_lem :
    (docker : Docker) (f : Container → Request) (cs : List Container) (t : List Request)
    → for_each docker f cs t ≡ (ok done, t ++ map f cs)
unfolding for_each
for_each_lem docker f [] t = ap (λ u. (ok done, u)) (sym (append-nil t))
for_each_lem docker f (c ∷ rest) t =
    for_each_lem docker f rest (t ++ f c ∷ [])
    ∙ ap (λ u. (ok done, u)) (append_assoc t (f c ∷ []) (map f rest))

-- A loop before an action.
after_each :
    (docker : Docker) (f : Container → Request) (cs : List Container) (k : Run Request Error Done)
    (t v : List Request)
    → k (t ++ map f cs) ≡ (ok done, v)
    → (do _ ← for_each docker f cs; k) t ≡ (ok done, v)
after_each docker f cs k t v h =
    ap
      (λ (r : Result Error Done × List Request).
        elim r.0 as (λ z. Result Error Done × List Request) [ ok a ↦ k r.1 | err e ↦ (err e, r.1) ])
      (for_each_lem docker f cs t)
    ∙ h

flatten :
    (t a b c d e f g : List Request)
    → t ++ a ++ b ++ c ++ d ++ e ++ f ++ g ≡ t ++ (a ++ b ++ c ++ d) ++ (e ++ f ++ g)
flatten t a b c d e f g = simp append_assoc refl

worker_lem :
    (docker : Docker) (cs : List Container) (t : List Request)
    → worker docker cs t ≡ (ok done, t ++ first_half cs ++ second_half cs)
unfolding worker first_half second_half
worker_lem docker cs t =
    let a = map restart (keep is_prereq cs) in
    let b = map healthy (keep is_prereq cs) in
    let c = map restart (keep is_provider cs) in
    let d = map healthy (keep is_provider cs) in
    let e = map restart (keep is_rest cs) in
    let f = map restart (keep is_dependent cs) in
    let g = map restart (keep is_prereq cs) in
    let from_f : Run Request Error Done = (do
      _ ← for_each docker restart (keep is_dependent cs)
      for_each docker restart (keep is_prereq cs)) in
    let from_e : Run Request Error Done = (do
      _ ← for_each docker restart (keep is_rest cs)
      from_f) in
    let from_d : Run Request Error Done = (do
      _ ← for_each docker healthy (keep is_provider cs)
      from_e) in
    let from_c : Run Request Error Done = (do
      _ ← for_each docker restart (keep is_provider cs)
      from_d) in
    let from_b : Run Request Error Done = (do
      _ ← for_each docker healthy (keep is_prereq cs)
      from_c) in
    let v : List Request = t ++ a ++ b ++ c ++ d ++ e ++ f ++ g in
    (after_each docker restart (keep is_prereq cs) from_b (t) v (
      after_each docker healthy (keep is_prereq cs) from_c (t ++ a) v (
        after_each docker restart (keep is_provider cs) from_d (t ++ a ++ b) v (
          after_each docker healthy (keep is_provider cs) from_e (t ++ a ++ b ++ c) v (
            after_each docker restart (keep is_rest cs) from_f (t ++ a ++ b ++ c ++ d) v (
              after_each docker restart (keep is_dependent cs)
                (for_each docker restart (keep is_prereq cs)) (t ++ a ++ b ++ c ++ d ++ e) v
                (for_each_lem docker restart (keep is_prereq cs)
                  (t ++ a ++ b ++ c ++ d ++ e ++ f))))))))
    ∙ ap (λ u. (ok done, u)) (flatten t a b c d e f g)

restart_targets_lem :
    (docker : Docker) (cs : List Container) (t : List Request)
    → 1 ≤ length cs
    → restart_targets docker cs t
      ≡ (ok (restarting (map (λ c. c.name) cs)), t ++ first_half cs ++ second_half cs)
unfolding restart_targets
restart_targets_lem docker [] t h = absurd (none_left h)
  where
    none_left : 1 ≤ 0 → ⊥
    none_left bad = omega (arith, bad)
restart_targets_lem docker (c ∷ cs) t h =
    run-bind (worker docker (c ∷ cs)) (λ _. pure (restarting (map (λ c. c.name) (c ∷ cs)))) t
      (t ++ first_half (c ∷ cs) ++ second_half (c ∷ cs)) done (worker_lem docker (c ∷ cs) t)

count_four :
    (q : Request → Bool) (a b c d : List Request)
    → count_if q (a ++ b ++ c ++ d) ≡ count_if q a + count_if q b + count_if q c + count_if q d
count_four q a b c d =
    omega (
      arith,
      count_if-append q (a ++ b ++ c) d,
      count_if-append q (a ++ b) c,
      count_if-append q a b,
    )

first_half-count :
    (p : Container → Bool) (cs : List Container)
    → count_if (restarts p) (first_half cs)
      ≡ count_if (λ c. is_prereq c && p c) cs + count_if (λ c. is_provider c && p c) cs
unfolding first_half
first_half-count p cs = omega (
  arith,
  count_four (restarts p) (map restart (keep is_prereq cs)) (map healthy (keep is_prereq cs))
      (map restart (keep is_provider cs)) (map healthy (keep is_provider cs)),
  count-restart p is_prereq cs,
  count-restart p is_provider cs,
  count-healthy p (keep is_prereq cs),
  count-healthy p (keep is_provider cs),
)

second_half-count :
    (p : Container → Bool) (cs : List Container)
    → count_if (restarts p) (second_half cs)
      ≡ count_if (λ c. is_rest c && p c) cs
        + count_if (λ c. is_dependent c && p c) cs
        + count_if (λ c. is_prereq c && p c) cs
unfolding second_half
second_half-count p cs = omega (
  arith,
  count_if-append (restarts p) (map restart (keep is_rest cs) ++ map restart (keep is_dependent cs))
      (map restart (keep is_prereq cs)),
  count_if-append (restarts p) (map restart (keep is_rest cs)) (map restart (keep is_dependent cs)),
  count-restart p is_rest cs,
  count-restart p is_dependent cs,
  count-restart p is_prereq cs,
)

-- What Docker tells `restart_all` at the requests `t`: the panel's container and its project.
pub record Fleet (docker : Docker) (t : List Request) : Type 0 where
  pub me : Container
  pub label : String
  pub all : List Container
  pub own_known : docker.own_container t ≡ some (me, label)
  pub labelled : str_eq label "" ≡ false
  pub all_known : docker.containers (t ++ own ∷ []) ≡ some all

module _ (docker : Docker) (t : List Request) (fleet : Fleet docker t) where
  unfoldable pub targets : List Container
  targets = others fleet.me fleet.all

  pub asked : List Request
  asked = t ++ own ∷ [] ++ project fleet.label ∷ []

  project_containers_run : project_containers docker t ≡ (ok (fleet.me, fleet.all), asked)
  unfolding project_containers asked with_own listed
  project_containers_run = rw fleet.own_known labelled_run
    where
      labelled_run :
          with_own docker (some (fleet.me, fleet.label)) (t ++ own ∷ [])
          ≡ (ok (fleet.me, fleet.all), t ++ own ∷ [] ++ project fleet.label ∷ [])
      labelled_run = rw fleet.labelled (rw fleet.all_known refl)

  restart_all_run :
      1 ≤ length targets
      → restart_all docker t ≡ (
        ok (restarting (map (λ c. c.name) targets)),
        asked ++ first_half targets ++ second_half targets,
      )
  unfolding restart_all targets
  restart_all_run h =
      run-bind (project_containers docker) (λ f. restart_targets docker (others f.0 f.1)) t asked
        (fleet.me, fleet.all) project_containers_run
      ∙ restart_targets_lem docker targets asked h

  -- With the fleet known and a container besides the panel, `restart_all` returns, whatever the
  -- restarts answer, and its worker restarts each container but the panel once, and those that the
  -- mount rests on twice: for every property `p`, so many restarts are of containers with `p`.
  pub restart_all-count :
      (p : Container → Bool)
      → 1 ≤ length targets
      → (restart_all docker t).0 ≡ ok (restarting (map (λ c. c.name) targets))
        × (count_if (restarts p) (restart_all docker t).1
            ≡ count_if (restarts p) t
              + count_if p targets
              + count_if (λ c. is_prereq c && p c) targets)
  unfolding asked restarts count_if
  restart_all-count p h = rw (restart_all_run h) (
    refl,
    omega (
      arith,
      first_half-count p targets,
      second_half-count p targets,
      all_stages p targets,
      count_if-append (restarts p) (asked ++ first_half targets) (second_half targets),
      count_if-append (restarts p) asked (first_half targets),
      count_if-append (restarts p) (t ++ own ∷ []) (project fleet.label ∷ []),
      count_if-append (restarts p) t (own ∷ []),
    ),
  )

  -- With the fleet known and a container besides the panel, `restart_all` takes the mount first: its
  -- requests fall into two parts, where the first restarts only what the mount rests on and the
  -- mount itself, and the second does not restart the mount again.
  pub restart_all-ordered :
      1 ≤ length targets
      → (first : List Request) × (second : List Request) × ((restart_all docker t).1
          ≡ asked ++ first ++ second)
        × (count_if (restarts (λ c. not (is_prereq c || is_provider c))) first ≡ 0)
        × (count_if (restarts is_provider) second ≡ 0)
  restart_all-ordered h = (
    first_half targets,
    second_half targets,
    ap (λ r. r.1) (restart_all_run h),
    omega (
      arith,
      first_half-count (λ c. not (is_prereq c || is_provider c)) targets,
      count_if-none (λ c. is_prereq c && not (is_prereq c || is_provider c)) targets
          (λ c. ground arith),
      count_if-none (λ c. is_provider c && not (is_prereq c || is_provider c)) targets
          (λ c. ground arith),
    ),
    omega (
      arith,
      second_half-count is_provider targets,
      count_if-none (λ c. is_rest c && is_provider c) targets no_provider,
      count_if-none (λ c. is_dependent c && is_provider c) targets no_dependent_provider,
      count_if-none (λ c. is_prereq c && is_provider c) targets no_prereq_provider,
    ),
  )
