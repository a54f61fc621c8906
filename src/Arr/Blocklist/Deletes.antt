-- ===== src/Arr/Blocklist/Deletes.antt =====
-- How many deletes the two attempts of `blocklist_and_research` in core/arr_client.py send.
use media_stack.Common.{
  Bool, Bool-cases, List, Option, String, [], arith, count_if, count_if-append, false,
  if◌then◌else◌, inl, inr, none, some, suc, true, zero, ℕ, ◌++◌, ◌+◌, ◌∷◌, ◌≡◌, ◌≤◌,
}
use media_stack.Common.Run.{Ensures, Ensures-mono, Run}
use media_stack.Arr.Api.{
  App, Error, Reply, Request, Servers, broken, delete_queue, post_search, status, timed_out,
}
use media_stack.Arr.Blocklist.{Complaint, delete_attempts, delete_failed, deleted, settle}

abbrev pub is_delete : Request → Bool
is_delete (delete_queue app n skip) = true
is_delete _ = false

abbrev pub is_search : Request → Bool
is_search (post_search app ids) = true
is_search _ = false

abbrev pub deletes : List Request → ℕ
deletes t = count_if is_delete t

abbrev pub searches : List Request → ℕ
searches t = count_if is_search t

-- One more request.
pub count_snoc :
    (p : Request → Bool) (t : List Request) (q : Request)
    → count_if p (t ++ q ∷ []) ≡ count_if p t + (if p q then 1 else 0)
unfolding count_if
count_snoc p t q = count_if-append p t (q ∷ [])

-- From `t` to `u`, between `lo` and `hi` deletes and no search.
abbrev pub Deletes : ℕ → ℕ → List Request → List Request → Type 0
Deletes lo hi t u =
    (deletes t + lo ≤ deletes u) × (deletes u ≤ deletes t + hi) × (searches u ≡ searches t)

settle_lem :
    (P : Option Complaint → List Request → Type 0) (title : String)
    (retry : Run Request Error (Option Complaint)) (reply : Reply) (u : List Request)
    → ((o : Option Complaint) → P o u)
    → Ensures retry P u
    → Ensures (settle title retry reply) P u
unfolding settle
settle_lem P title retry timed_out u all h = h
settle_lem P title retry broken u all h = all (some (delete_failed title broken))
settle_lem P title retry (status n) u all h = elim (Bool-cases (deleted (status n))) [
  | inl e ↦ rw e (all none)
  | inr e ↦ rw e (all (some (delete_failed title (status n))))
]

one_delete :
    (t : List Request) (app : App) (n : ℕ) (skip : Bool)
    → Deletes 1 1 t (t ++ delete_queue app n skip ∷ [])
one_delete t app n skip = omega (
  arith,
  count_snoc is_delete t (delete_queue app n skip),
  count_snoc is_search t (delete_queue app n skip),
)

pub Deletes-trans :
    (a b c d : ℕ) (t u v : List Request)
    → Deletes a b t u
    → Deletes c d u v
    → Deletes (a + c) (b + d) t v
Deletes-trans a b c d t u v h k = omega arith

module _ (srv : Servers) (app : App) where
  pub delete_attempts_lem :
      (skip : Bool) (title : String) (n left : ℕ) (t : List Request)
      → Ensures (delete_attempts srv app skip title n left) (λ _ u. Deletes 1 (suc left) t u) t
  unfolding delete_attempts
  delete_attempts_lem skip title n zero t =
      settle_lem (λ _ u. Deletes 1 1 t u) title _ (srv.delete_queue_reply app n t) _
        (λ _. one_delete t app n skip) (one_delete t app n skip)
  delete_attempts_lem skip title n (suc left) t =
      let u : List Request = t ++ delete_queue app n skip ∷ [] in
      settle_lem (λ _ v. Deletes 1 (suc (suc left)) t v) title _ (srv.delete_queue_reply app n t) u
        (λ _. omega (arith, one_delete t app n skip))
        (Ensures-mono (λ _ v. Deletes 1 (suc left) u v) (λ _ v. Deletes 1 (suc (suc left)) t v)
          (delete_attempts srv app skip title n left) u (delete_attempts_lem skip title n left u)
          (λ o v d. omega (arith, one_delete t app n skip)))
