-- ===== src/Arr/Blocklist/Unmonitored.antt =====
-- What `blocklist_and_research` of core/arr_client.py requests, item by item.

use media_stack.Common.{
  All, All-append, Bool, Bool-cases, List, Option, String, [], false, inl, inr, none, not, refl,
  some, suc, true, zero, ℕ, ◌++◌, ◌∷◌, ◌≡◌, ◌⊎◌,
}
use media_stack.Common.Run.{Ends, Ends-Ensures, Ends-bind, Ends-mono, Ensures, Run, pure, ◌>>=◌}
use media_stack.Arr.Api.{
  App, Body, Embedded, Error, QueueItem, Reply, Request, Servers, broken, delete_queue, get_item,
  given, post_search, says_monitored, status, timed_out, unavailable, unreadable,
}
use media_stack.Arr.Blocklist.{
  Complaint, Progress, blocklist_and_research, delete_attempts, delete_timed_out, deleted,
  embedded_of, fix_item, fix_items, found_monitored, item_is_monitored, look_up, settle, target_of,
  title_of, trigger_search, with_id,
}

-- `for q in items` takes this item.
abbrev pub IsOneOf : QueueItem → List QueueItem → Type 0
IsOneOf q [] = ⊥
IsOneOf q (x ∷ xs) = (x ≡ q) ⊎ IsOneOf q xs

-- What the item's own record or, where it has none, the answers to lookups leave possible: its
-- movie or episode may be monitored.
module _ (srv : Servers) (app : App) where
  abbrev pub MayBeAnswered : Body Embedded → Type 0
  MayBeAnswered unavailable = Unit
  MayBeAnswered unreadable = ⊥
  MayBeAnswered (given e) = says_monitored e ≡ true

  abbrev pub MayBeLookedUp : Option ℕ → Type 0
  MayBeLookedUp none = Unit
  MayBeLookedUp (some n) = (v : List Request) × MayBeAnswered (srv.item app n v)

  abbrev pub MayBeEmbedded : Option Embedded → Option ℕ → Type 0
  MayBeEmbedded (some e) n = says_monitored e ≡ true
  MayBeEmbedded none n = MayBeLookedUp n

  -- An item that may be monitored.
  abbrev pub MayBeMonitored : QueueItem → Type 0
  MayBeMonitored q = MayBeEmbedded (embedded_of app q) (target_of app q)

  module _ (items : List QueueItem) where
    -- The movie or episode with this id belongs to an item that may be monitored.
    abbrev pub IsWanted : ℕ → Type 0
    IsWanted n = (q : QueueItem) × IsOneOf q items × (target_of app q ≡ some n) × MayBeMonitored q

    -- A search is for wanted movies or episodes only; and a delete that lets the application search
    -- again is of an item that may be monitored.
    abbrev pub IsJustified : Request → Type 0
    IsJustified (post_search a ids) = All IsWanted ids
    IsJustified (delete_queue a n skip) =
        (skip ≡ true) ⊎ ((q : QueueItem) × IsOneOf q items × (q.id ≡ n) × MayBeMonitored q)
    IsJustified _ = Unit

    abbrev pub AllJustified : List Request → Type 0
    AllJustified u = All IsJustified u

    All-snoc :
        (t : List Request) (q : Request)
        → AllJustified t
        → IsJustified q
        → AllJustified (t ++ q ∷ [])
    All-snoc t q h k = All-append IsJustified t (q ∷ []) h (k, tt)

    settle-Justified :
        (title : String) (retry : Run Request Error (Option Complaint)) (reply : Reply)
        (u : List Request)
        → AllJustified u
        → Ensures retry (λ _ v. AllJustified v) u
        → Ensures (settle title retry reply) (λ _ v. AllJustified v) u
    unfolding settle
    settle-Justified title retry timed_out u all h = h
    settle-Justified title retry broken u all h = all
    settle-Justified title retry (status n) u all h = elim (Bool-cases (deleted (status n))) [
      | inl e ↦ rw e all
      | inr e ↦ rw e all
    ]

    delete_attempts-Justified :
        (skip : Bool) (title : String) (n left : ℕ) (t : List Request)
        → IsJustified (delete_queue app n skip)
        → AllJustified t
        → Ensures (delete_attempts srv app skip title n left) (λ _ u. AllJustified u) t
    unfolding delete_attempts
    delete_attempts-Justified skip title n zero t just h =
        let u : List Request = t ++ delete_queue app n skip ∷ [] in
        let all : AllJustified u = All-snoc t (delete_queue app n skip) h just in
        settle-Justified title (pure (some (delete_timed_out title)))
          (srv.delete_queue_reply app n t) u all all
    delete_attempts-Justified skip title n (suc left) t just h =
        let u : List Request = t ++ delete_queue app n skip ∷ [] in
        let all : AllJustified u = All-snoc t (delete_queue app n skip) h just in
        settle-Justified title (delete_attempts srv app skip title n left)
          (srv.delete_queue_reply app n t) u all
          (delete_attempts-Justified skip title n left u just all)

    -- What the test of an item says, and what was requested by then.
    abbrev Tested : Type 0 → Bool → List Request → Type 0
    Tested May b u = (b ≡ true → May) × AllJustified u

    found_monitored-Tested :
        (body : Body Embedded) (u : List Request)
        → AllJustified u
        → Ends (found_monitored body) (Tested (MayBeAnswered body)) (λ _ v. AllJustified v) u
    unfolding found_monitored
    found_monitored-Tested unavailable u h = (λ _. tt, h)
    found_monitored-Tested unreadable u h = h
    found_monitored-Tested (given e) u h = (λ k. k, h)

    look_up-Tested :
        (o : Option ℕ) (t : List Request)
        → AllJustified t
        → Ends (look_up srv app o) (Tested (MayBeLookedUp o)) (λ _ v. AllJustified v) t
    unfolding look_up
    look_up-Tested none t h = (λ _. tt, h)
    look_up-Tested (some n) t h =
        let u : List Request = t ++ get_item app n ∷ [] in
        Ends-mono (Tested (MayBeAnswered (srv.item app n t))) (Tested (MayBeLookedUp (some n)))
          (λ _ v. AllJustified v) (λ _ v. AllJustified v) (found_monitored (srv.item app n t)) u
          (found_monitored-Tested (srv.item app n t) u (All-snoc t (get_item app n) h tt))
          (λ b v k. (λ e. (t, k.0 e), k.1)) (λ _ _ k. k)

    item_is_monitored-Tested :
        (q : QueueItem) (t : List Request)
        → AllJustified t
        → Ends (item_is_monitored srv app q) (Tested (MayBeMonitored q)) (λ _ v. AllJustified v) t
    unfolding item_is_monitored
    item_is_monitored-Tested q t h = go (embedded_of app q) (target_of app q)
      where
        go :
            (e : Option Embedded) (n : Option ℕ)
            → Ends
                (elim e as (λ z. Run Request Error Bool) [
                  | some e ↦ pure (says_monitored e)
                  | none ↦ look_up srv app n
                ])
                (Tested (MayBeEmbedded e n))
                (λ _ v. AllJustified v)
                t
        go (some e) n = (λ k. k, h)
        go none n = look_up-Tested n t h

    -- What the loop keeps: every id that it gathers is wanted.
    abbrev Gathered : Progress → List Request → Type 0
    Gathered p u = All IsWanted p.search_ids × AllJustified u

    with_id-Wanted :
        (b : Bool) (o : Option ℕ) (ids : List ℕ)
        → All IsWanted ids
        → ((n : ℕ) → b ≡ true → o ≡ some n → IsWanted n)
        → All IsWanted (with_id b o ids)
    with_id-Wanted true none ids h k = h
    with_id-Wanted true (some n) ids h k = All-append IsWanted ids (n ∷ []) h (k n refl refl, tt)
    with_id-Wanted false o ids h k = h

    fix_item-Justified :
        (str : ℕ → String) (q : QueueItem) (p : Progress) (t : List Request)
        → IsOneOf q items
        → Gathered p t
        → Ends (fix_item srv str app q p) Gathered (λ _ v. AllJustified v) t
    unfolding fix_item
    fix_item-Justified str q p t here h =
        Ends-bind (Tested (MayBeMonitored q)) Gathered (λ _ v. AllJustified v)
          (item_is_monitored srv app q) body t (item_is_monitored-Tested q t h.1) tested
      where
        finish : Bool → Option Complaint → Run Request Error Progress
        finish monitored o = elim o [
          | some c ↦ pure (record p { errors = p.errors ++ c ∷ [] })
          | none ↦ pure (record p {
            fixed = p.fixed ++ title_of str q ∷ [];
            search_ids = with_id monitored (target_of app q) p.search_ids;
          })
        ]

        body : Bool → Run Request Error Progress
        body monitored =
            delete_attempts srv app (not monitored) (title_of str q) q.id 1 >>= finish monitored

        finished :
            (b : Bool) (o : Option Complaint) (u : List Request)
            → (b ≡ true → MayBeMonitored q)
            → AllJustified u
            → Ends (finish b o) Gathered (λ _ v. AllJustified v) u
        finished b (some c) u may all = (h.0, all)
        finished b none u may all = (
          with_id-Wanted b (target_of app q) p.search_ids h.0 (λ n e k. (q, here, k, may e)),
          all,
        )

        justified :
            (b : Bool) → (b ≡ true → MayBeMonitored q) → IsJustified (delete_queue app q.id (not b))
        justified true may = inr (q, here, refl, may refl)
        justified false may = inl refl

        tested :
            (b : Bool) (u : List Request)
            → Tested (MayBeMonitored q) b u
            → Ends (body b) Gathered (λ _ v. AllJustified v) u
        tested b u k =
            Ends-bind (λ _ v. AllJustified v) Gathered (λ _ v. AllJustified v)
              (delete_attempts srv app (not b) (title_of str q) q.id 1) (finish b) u
              (Ends-Ensures (λ _ v. AllJustified v) (λ _ v. AllJustified v)
                (delete_attempts srv app (not b) (title_of str q) q.id 1) u
                (delete_attempts-Justified (not b) (title_of str q) q.id 1 u (justified b k.0) k.1))
              (λ o v all. finished b o v k.0 all)

    fix_items-Justified :
        (str : ℕ → String) (rest : List QueueItem) (p : Progress) (t : List Request)
        → ((q : QueueItem) → IsOneOf q rest → IsOneOf q items)
        → Gathered p t
        → Ends (fix_items srv str app rest p) Gathered (λ _ v. AllJustified v) t
    unfolding fix_items
    fix_items-Justified str [] p t sub h = h
    fix_items-Justified str (q ∷ rest) p t sub h =
        Ends-bind Gathered Gathered (λ _ v. AllJustified v) (fix_item srv str app q p)
          (fix_items srv str app rest) t (fix_item-Justified str q p t (sub q (inl refl)) h)
          (λ p' u k. fix_items-Justified str rest p' u (λ x m. sub x (inr m)) k)

    trigger_search-Justified :
        (p : Progress) (ids : List ℕ) (t : List Request)
        → All IsWanted ids
        → AllJustified t
        → Ensures (trigger_search srv app p ids) (λ _ u. AllJustified u) t
    unfolding trigger_search
    trigger_search-Justified p [] t w h = h
    trigger_search-Justified p (n ∷ ids) t w h = All-snoc t (post_search app (n ∷ ids)) h w

    -- Whether it returns or an unreadable answer cuts it short, whatever the items and the servers:
    -- every id that it searches for belongs to an item that may be monitored, and every delete
    -- without skipRedownload is of such an item. An item may be monitored if the record it embeds
    -- does not say otherwise; or, where it embeds none, if it has no id to look up, or a lookup of
    -- that id fails or gives a record that does not say otherwise.
    pub blocklist_and_research-Justified :
        (str : ℕ → String)
        → Ends
            (blocklist_and_research srv str app items)
            (λ _ u. AllJustified u)
            (λ _ u. AllJustified u)
            []
    unfolding blocklist_and_research
    blocklist_and_research-Justified str =
        let none_yet : Progress = record { fixed = []; errors = []; search_ids = [] } in
        let report : Progress → Run Request Error (List String × List Complaint) =
          λ p. pure (p.fixed, p.errors) in
        let rest : Progress → Run Request Error (List String × List Complaint) =
          λ p. trigger_search srv app p p.search_ids >>= report in
        Ends-bind Gathered (λ _ u. AllJustified u) (λ _ u. AllJustified u)
          (fix_items srv str app items none_yet) rest []
          (fix_items-Justified str items none_yet [] (λ x m. m) (tt, tt))
          λ p u h.
            Ends-bind (λ _ v. AllJustified v) (λ _ v. AllJustified v) (λ _ v. AllJustified v)
              (trigger_search srv app p p.search_ids) report u
              (Ends-Ensures (λ _ v. AllJustified v) (λ _ v. AllJustified v)
                (trigger_search srv app p p.search_ids) u
                (trigger_search-Justified p p.search_ids u h.0 h.1))
              (λ _ v k. k)
