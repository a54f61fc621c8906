-- ===== src/Arr/Blocklist/Outcome.antt =====
-- What `blocklist_and_research` of core/arr_client.py returns and sends, whatever the servers answer.
use media_stack.Common.{
  Bool, Bool-cases, List, Option, String, [], arith, false, inl, inr, length, length-append, none,
  not, refl, some, suc, true, ℕ, ◌*◌, ◌++◌, ◌+◌, ◌<◌, ◌∷◌, ◌≡◌, ◌≤◌, ◌⊎◌,
}
use media_stack.Common.Run.{Ends, Ends-Ensures, Ends-bind, Ends-mono, Ensures, Run, pure, ◌>>=◌}
use media_stack.Arr.Api.{
  App, Body, Embedded, Error, QueueItem, Request, Servers, get_item, given, is_success, post_search,
  says_monitored, unavailable, unreadable, unreadable_reply,
}
use media_stack.Arr.Blocklist.{
  Complaint, Progress, blocklist_and_research, delete_attempts, embedded_of, fix_item, fix_items,
  found_monitored, item_is_monitored, look_up, search_failed, target_of, title_of, trigger_search,
  with_id,
}
use media_stack.Arr.Blocklist.Deletes.{
  Deletes, Deletes-trans, count_snoc, delete_attempts_lem, deletes, is_delete, is_search, searches,
}

module _ (srv : Servers) (app : App) where
  -- Why a run was cut short: an answer to a lookup could not be read.
  abbrev pub Unread : Error → Type 0
  Unread e =
      (e ≡ unreadable_reply) × ((m : ℕ) × (v : List Request) × (srv.item app m v ≡ unreadable))

  -- A run over at most `n` items from `t` that is cut short at `u`: before the last of them was
  -- deleted, and with no search sent.
  abbrev pub Interrupted : ℕ → List Request → Error → List Request → Type 0
  Interrupted n t e u = Unread e × (deletes u + 2 ≤ deletes t + 2 * n) × (searches u ≡ searches t)

  found_monitored_lem :
      (n : ℕ) (t : List Request) (body : Body Embedded)
      → srv.item app n t ≡ body
      → Ends
          (found_monitored body)
          (λ _ u. Deletes 0 0 t u)
          (Interrupted 1 t)
          (t ++ get_item app n ∷ [])
  unfolding found_monitored
  found_monitored_lem n t body e = go body e none_sent
    where
      none_sent : Deletes 0 0 t (t ++ get_item app n ∷ [])
      none_sent =
          omega (
            arith,
            count_snoc is_delete t (get_item app n),
            count_snoc is_search t (get_item app n),
          )

      go :
          (body : Body Embedded)
          → srv.item app n t ≡ body
          → Deletes 0 0 t (t ++ get_item app n ∷ [])
          → Ends
              (found_monitored body)
              (λ _ u. Deletes 0 0 t u)
              (Interrupted 1 t)
              (t ++ get_item app n ∷ [])
      go unavailable e d = d
      go (given x) e d = d
      go unreadable e d = ((refl, (n, t, e)), omega arith, d.2)

  look_up_lem :
      (o : Option ℕ) (t : List Request)
      → Ends (look_up srv app o) (λ _ u. Deletes 0 0 t u) (Interrupted 1 t) t
  unfolding look_up
  look_up_lem none t = omega arith
  look_up_lem (some n) t = found_monitored_lem n t (srv.item app n t) refl

  item_is_monitored_lem :
      (q : QueueItem) (t : List Request)
      → Ends (item_is_monitored srv app q) (λ _ u. Deletes 0 0 t u) (Interrupted 1 t) t
  unfolding item_is_monitored
  item_is_monitored_lem q t = go (embedded_of app q)
    where
      go :
          (e : Option Embedded)
          → Ends
              (elim e as (λ z. Run Request Error Bool) [
                | some e ↦ pure (says_monitored e)
                | none ↦ look_up srv app (target_of app q)
              ])
              (λ _ u. Deletes 0 0 t u)
              (Interrupted 1 t)
              t
      go (some e) = omega arith
      go none = look_up_lem (target_of app q) t

  -- `n` more items are accounted for: each is fixed or complained of, and a search is wanted only
  -- for one that is fixed.
  abbrev Progressed : ℕ → Progress → Progress → Type 0
  Progressed n p p' =
      (length p'.fixed + length p'.errors ≡ length p.fixed + length p.errors + n)
      × (length p'.search_ids + length p.fixed ≤ length p'.fixed + length p.search_ids)

  with_id_lem : (b : Bool) (o : Option ℕ) (ids : List ℕ) → length (with_id b o ids) ≤ length ids + 1
  with_id_lem true none ids = omega arith
  with_id_lem true (some n) ids = omega (arith, length-append {0} ids (n ∷ []))
  with_id_lem false o ids = omega arith

  fix_item_lem :
      (str : ℕ → String) (q : QueueItem) (p : Progress) (t : List Request)
      → Ends
          (fix_item srv str app q p)
          (λ p' u. Progressed 1 p p' × Deletes 1 2 t u)
          (Interrupted 1 t)
          t
  unfolding fix_item
  fix_item_lem str q p t =
      Ends-bind (λ _ u. Deletes 0 0 t u) (λ p' u. Progressed 1 p p' × Deletes 1 2 t u)
        (Interrupted 1 t) (item_is_monitored srv app q) _ t (item_is_monitored_lem q t)
        λ monitored u none_sent.
          Ends-bind (λ _ v. Deletes 1 2 u v) (λ p' v. Progressed 1 p p' × Deletes 1 2 t v)
            (Interrupted 1 t) (delete_attempts srv app (not monitored) (title_of str q) q.id 1) _ u
            (Ends-Ensures (λ _ v. Deletes 1 2 u v) (Interrupted 1 t)
              (delete_attempts srv app (not monitored) (title_of str q) q.id 1) u
              (delete_attempts_lem srv app (not monitored) (title_of str q) q.id 1 u))
            λ complaint v sent.
              finish monitored complaint v (Deletes-trans 0 0 1 2 t u v none_sent sent)
    where
      finish :
          (monitored : Bool) (o : Option Complaint) (v : List Request)
          → Deletes 1 2 t v
          → Ends {E = Error}
              (elim o as (λ z. Run Request Error Progress) [
                | some c ↦ pure (record p { errors = p.errors ++ c ∷ [] })
                | none ↦ pure (record p {
                  fixed = p.fixed ++ title_of str q ∷ [];
                  search_ids = with_id monitored (target_of app q) p.search_ids;
                })
              ])
              (λ p' w. Progressed 1 p p' × Deletes 1 2 t w)
              (Interrupted 1 t)
              v
      finish monitored none v d = (
        omega (
          arith,
          length-append {0} p.fixed (title_of str q ∷ []),
          with_id_lem monitored (target_of app q) p.search_ids,
        ),
        d,
      )
      finish monitored (some c) v d = (omega (arith, length-append {0} p.errors (c ∷ [])), d)

  fix_items_lem :
      (str : ℕ → String) (items : List QueueItem) (p : Progress) (t : List Request)
      → Ends
          (fix_items srv str app items p)
          (λ p' u. Progressed (length items) p p' × Deletes (length items) (2 * length items) t u)
          (Interrupted (length items) t)
          t
  unfolding fix_items
  fix_items_lem str [] p t = (omega arith, omega arith)
  fix_items_lem str (q ∷ rest) p t =
      let n = suc (length rest) in
      Ends-bind (λ p' u. Progressed 1 p p' × Deletes 1 2 t u)
        (λ p' u. Progressed n p p' × Deletes n (2 * n) t u) (Interrupted n t)
        (fix_item srv str app q p) (fix_items srv str app rest) t
        (Ends-mono (λ p' u. Progressed 1 p p' × Deletes 1 2 t u)
          (λ p' u. Progressed 1 p p' × Deletes 1 2 t u) (Interrupted 1 t) (Interrupted n t)
          (fix_item srv str app q p) t (fix_item_lem str q p t) (λ _ _ h. h)
          λ _ _ h. (h.0, omega arith, h.2))
        λ p' u h.
          Ends-mono
            (λ p'' v. Progressed (length rest) p' p'' × Deletes (length rest) (2 * length rest) u v)
            (λ p'' v. Progressed n p p'' × Deletes n (2 * n) t v) (Interrupted (length rest) u)
            (Interrupted n t) (fix_items srv str app rest p') u (fix_items_lem str rest p' u)
            (λ p'' v k. (omega arith, omega arith)) λ e v k. (k.0, omega arith, omega arith)

  -- What `blocklist_and_research` has done by the end, for `n` items, from the requests `t` to `u`:
  -- each item is either fixed or complained of, by one complaint; each is deleted once or twice; and
  -- at most one search is sent, only if an item was fixed, and only its failure adds a complaint.
  abbrev pub Accounted : ℕ → List Request → (fixed errors : ℕ) → List Request → Type 0
  Accounted n t fixed errors u =
      (deletes t + n ≤ deletes u)
      × (deletes u ≤ deletes t + 2 * n)
      × (((fixed + errors ≡ n) × (searches u ≤ searches t + fixed) × (searches u ≤ searches t + 1))
          ⊎ ((fixed + errors ≡ n + 1) × (searches u ≡ searches t + 1) × (0 < fixed)))

  trigger_search_lem :
      (n : ℕ) (p : Progress) (ids : List ℕ) (t u : List Request)
      → length p.fixed + length p.errors ≡ n
      → length ids ≤ length p.fixed
      → Deletes n (2 * n) t u
      → Ensures
          (trigger_search srv app p ids)
          (λ p' v. Accounted n t (length p'.fixed) (length p'.errors) v)
          u
  unfolding trigger_search
  trigger_search_lem n p [] t u all few d = (d.0, d.1, inl (all, omega arith, omega arith))
  trigger_search_lem n p (m ∷ ids) t u all few d =
      let k = length (m ∷ ids) in
      let q = post_search app (m ∷ ids) in
      let reply = srv.search_reply app (m ∷ ids) u in
      let one : searches (u ++ q ∷ []) ≡ searches t + 1 = omega (arith, count_snoc is_search u q) in
      let same : deletes (u ++ q ∷ []) ≡ deletes u = omega (arith, count_snoc is_delete u q) in
      elim (Bool-cases (is_success reply)) [
        | inl e ↦ rw e (omega arith, omega arith, inl (all, omega arith, omega arith))
        | inr e ↦ rw e (
          omega arith,
          omega arith,
          inr (omega (arith, length-append {0} p.errors (search_failed k ∷ [])), one, omega arith),
        )
      ]

  -- Whatever the servers answer, `blocklist_and_research` returns and accounts for every item, or
  -- is cut short by a lookup whose answer is no JSON object: that error goes through to the caller,
  -- after fewer deletes than two for each item and with no search sent.
  pub blocklist_and_research-Accounted :
      (str : ℕ → String) (items : List QueueItem) (t : List Request)
      → Ends
          (blocklist_and_research srv str app items)
          (λ r u. Accounted (length items) t (length r.0) (length r.1) u)
          (Interrupted (length items) t)
          t
  unfolding blocklist_and_research
  blocklist_and_research-Accounted str items t =
      let none_yet : Progress = record { fixed = []; errors = []; search_ids = [] } in
      let n = length items in
      let report : Progress → Run Request Error (List String × List Complaint) =
        λ p. pure (p.fixed, p.errors) in
      let rest : Progress → Run Request Error (List String × List Complaint) =
        λ p. trigger_search srv app p p.search_ids >>= report in
      Ends-bind (λ p u. Progressed n none_yet p × Deletes n (2 * n) t u)
        (λ r u. Accounted n t (length r.0) (length r.1) u) (Interrupted n t)
        (fix_items srv str app items none_yet) rest t (fix_items_lem str items none_yet t)
        λ p u h.
          Ends-bind (λ p' v. Accounted n t (length p'.fixed) (length p'.errors) v)
            (λ r v. Accounted n t (length r.0) (length r.1) v) (Interrupted n t)
            (trigger_search srv app p p.search_ids) report u
            (Ends-Ensures (λ p' v. Accounted n t (length p'.fixed) (length p'.errors) v)
              (Interrupted n t) (trigger_search srv app p p.search_ids) u
              (trigger_search_lem n p p.search_ids t u (omega arith) (omega arith) h.1))
            λ p' v k. k
