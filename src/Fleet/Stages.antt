-- ===== src/Fleet/Stages.antt =====
-- How the four stages of `restart_all` of host/services.py split the containers.
use media_stack.Common.{
  Bool, Bool-cases, List, String, [], all_of, arith, count_if, eq_iff, false, inl, inr, keep, map,
  mem_str, not, one_if, refl, str_eq, sym, true, ◌&&◌, ◌++◌, ◌+◌, ◌||◌, ◌∷◌, ◌≡◌,
}
use media_stack.Fleet.{
  Container, Request, healthy, is_dependent, is_prereq, is_provider, is_rest, mount_dependents,
  mount_prereqs, mount_providers, restart,
}

-- A restart of a container with `p`.
unfoldable pub restarts : (Container → Bool) → Request → Bool
restarts p (restart c) = p c
restarts p _ = false

disjoint :
    (n : String) (xs ys : List String)
    → all_of (λ k. not (mem_str k ys)) xs ≡ true
    → mem_str n xs ≡ true
    → mem_str n ys ≡ false
unfolding mem_str all_of
disjoint n [] ys h k = cc
disjoint n (x ∷ xs) ys h k = elim (Bool-cases (str_eq x n)) [
  | inl e ↦ rw (sym ((eq_iff x n).0 e)) (ground (arith, h))
  | inr e ↦ disjoint n xs ys (ground (arith, h)) (ground (arith, k, e))
]

mem_str-append :
    (n : String) (xs ys : List String) → mem_str n (xs ++ ys) ≡ (mem_str n xs || mem_str n ys)
unfolding mem_str
mem_str-append n [] ys = refl
mem_str-append n (x ∷ xs) ys = ground (arith, mem_str-append n xs ys)

apart_pp : all_of (λ k. not (mem_str k mount_providers)) mount_prereqs ≡ true
unfolding all_of mem_str
apart_pp = refl

apart_pd : all_of (λ k. not (mem_str k mount_dependents)) mount_prereqs ≡ true
unfolding all_of mem_str
apart_pd = refl

apart_qd : all_of (λ k. not (mem_str k mount_dependents)) mount_providers ≡ true
unfolding all_of mem_str
apart_qd = refl

-- The four stages split the containers.
pub one_stage :
    (c : Container)
    → one_if (is_prereq c) + one_if (is_provider c) + one_if (is_rest c) + one_if (is_dependent c)
      ≡ 1
one_stage c = ground (
  arith,
  mem_str-append c.name (mount_prereqs ++ mount_providers) mount_dependents,
  mem_str-append c.name mount_prereqs mount_providers,
  disjoint c.name mount_prereqs mount_providers apart_pp,
  disjoint c.name mount_prereqs mount_dependents apart_pd,
  disjoint c.name mount_providers mount_dependents apart_qd,
)

-- How many of the restarts in a stage are of containers with `p`.
pub count-restart :
    (p s : Container → Bool) (cs : List Container)
    → count_if (restarts p) (map restart (keep s cs)) ≡ count_if (λ c. s c && p c) cs
unfolding count_if keep restarts
count-restart p s [] = refl
count-restart p s (c ∷ cs) = elim (Bool-cases (s c)) [
  | inl e ↦ rw e (ground (arith, count-restart p s cs))
  | inr e ↦ rw e (count-restart p s cs)
]

pub count-healthy :
    (p : Container → Bool) (cs : List Container) → count_if (restarts p) (map healthy cs) ≡ 0
unfolding count_if restarts
count-healthy p [] = refl
count-healthy p (c ∷ cs) = count-healthy p cs

split_four :
    (a b r d q : Bool)
    → one_if a + one_if b + one_if r + one_if d ≡ 1
    → one_if (a && q) + one_if (b && q) + one_if (r && q) + one_if (d && q) ≡ one_if q
split_four a b r d q h = ground (arith, h)

count_if-cons :
    (p : Container → Bool) (c : Container) (cs : List Container)
    → count_if p (c ∷ cs) ≡ one_if (p c) + count_if p cs
unfolding count_if
count_if-cons p c cs = ground arith

pub all_stages :
    (p : Container → Bool) (cs : List Container)
    → count_if (λ c. is_prereq c && p c) cs
        + count_if (λ c. is_provider c && p c) cs
        + count_if (λ c. is_rest c && p c) cs
        + count_if (λ c. is_dependent c && p c) cs
      ≡ count_if p cs
unfolding count_if
all_stages p [] = omega arith
all_stages p (c ∷ cs) = omega (
  arith,
  all_stages p cs,
  split_four (is_prereq c) (is_provider c) (is_rest c) (is_dependent c) (p c) (one_stage c),
  count_if-cons (λ d. is_prereq d && p d) c cs,
  count_if-cons (λ d. is_provider d && p d) c cs,
  count_if-cons (λ d. is_rest d && p d) c cs,
  count_if-cons (λ d. is_dependent d && p d) c cs,
  count_if-cons p c cs,
)

pub count_if-none :
    (p : Container → Bool) (cs : List Container)
    → ((c : Container) → p c ≡ false)
    → count_if p cs ≡ 0
unfolding count_if
count_if-none p [] h = refl
count_if-none p (c ∷ cs) h = ground (arith, h c, count_if-none p cs h)

pub no_provider : (c : Container) → (is_rest c && is_provider c) ≡ false
no_provider c = ground (arith, one_stage c)

pub no_dependent_provider : (c : Container) → (is_dependent c && is_provider c) ≡ false
no_dependent_provider c = ground (arith, one_stage c)

pub no_prereq_provider : (c : Container) → (is_prereq c && is_provider c) ≡ false
no_prereq_provider c = ground (arith, one_stage c)
