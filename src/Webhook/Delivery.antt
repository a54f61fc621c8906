-- ===== src/Webhook/Delivery.antt =====
-- What the worker of scripts/plex-webhook-listener.py gets to Discord.
use mathlib.Core.List.{append_assoc, append-nil}
use media_stack.Common.{
  Bool, List, [], ap, false, none, refl, some, sym, true, ℕ, ◌++◌, ◌∙◌, ◌∷◌, ◌≡◌,
}
use media_stack.Common.Run.{Done, Ensures, Ensures-after, Ensures-mono, Run, ◌>>=◌}
use media_stack.Webhook.{
  Answer, Crash, Notice, Step, delivered, failed, limited, pause, post, post_discord,
  post_discord_once, retry, sleep, worker,
}

-- The posts and pauses for a list of notices: each notice in its turn, posted once, or twice with a
-- pause between, and a pause after it.
pub data Paced : List Notice → List Step → Type 0 where
  at_end : Paced [] []
  once :
      {n : Notice} {ns : List Notice} {steps : List Step}
      → Paced ns steps
      → Paced (n ∷ ns) (post n ∷ sleep 1 ∷ steps)
  twice :
      {n : Notice} {ns : List Notice} {steps : List Step} (seconds : ℕ)
      → Paced ns steps
      → Paced (n ∷ ns) (post n ∷ sleep seconds ∷ post n ∷ sleep 1 ∷ steps)

-- The answer is not one whose header stops the worker.
abbrev pub is_readable : Answer → Bool
is_readable (limited none) = false
is_readable _ = true

-- The steps from `t` to `u` are those for the notices.
pub Delivered : List Notice → (t u : List Step) → Type 0
Delivered ns t u = (steps : List Step) × Paced ns steps × (u ≡ t ++ steps)

module _ (answer : List Step → Answer) where
  after_one :
      (n : Notice) (ns : List Notice) (t u : List Step)
      → Delivered ns (t ++ post n ∷ [] ++ sleep 1 ∷ []) u
      → Delivered (n ∷ ns) t u
  unfolding Delivered
  after_one n ns t u p = (post n ∷ sleep 1 ∷ p.0, once p.1, p.2 ∙ simp append_assoc refl)

  after_two :
      (n : Notice) (ns : List Notice) (t u : List Step) (seconds : ℕ)
      → Delivered ns (t ++ post n ∷ [] ++ sleep seconds ∷ [] ++ post n ∷ [] ++ sleep 1 ∷ []) u
      → Delivered (n ∷ ns) t u
  unfolding Delivered
  after_two n ns t u seconds p = (
    post n ∷ sleep seconds ∷ post n ∷ sleep 1 ∷ p.0,
    twice seconds p.1,
    p.2 ∙ simp append_assoc refl,
  )

  next : List Notice → Done → Run Step Crash Done
  next ns d = do _ ← pause answer 1; worker answer true ns

  one_notice :
      (n : Notice) (ns : List Notice) (t : List Step) (a : Answer)
      → answer t ≡ a
      → is_readable a ≡ true
      → ((v : List Step) → Ensures (worker answer true ns) (λ d u. Delivered ns v u) v)
      → Ensures (worker answer true (n ∷ ns)) (λ d u. Delivered (n ∷ ns) t u) t
  unfolding worker post_discord retry post_discord_once next
  one_notice n ns t delivered e r later =
      Ensures-after (λ d u. Delivered (n ∷ ns) t u) (post_discord answer n) (next ns) t
        (ap (λ a. retry answer n a (t ++ post n ∷ [])) e)
        (Ensures-mono _ _ (worker answer true ns) (t ++ post n ∷ [] ++ sleep 1 ∷ []) (later _)
          (λ d u p. after_one n ns t u p))
  one_notice n ns t failed e r later =
      Ensures-after (λ d u. Delivered (n ∷ ns) t u) (post_discord answer n) (next ns) t
        (ap (λ a. retry answer n a (t ++ post n ∷ [])) e)
        (Ensures-mono _ _ (worker answer true ns) (t ++ post n ∷ [] ++ sleep 1 ∷ []) (later _)
          (λ d u p. after_one n ns t u p))
  one_notice n ns t (limited none) e r later = cc
  one_notice n ns t (limited (some seconds)) e r later =
      Ensures-after (λ d u. Delivered (n ∷ ns) t u) (post_discord answer n) (next ns) t
        (ap (λ a. retry answer n a (t ++ post n ∷ [])) e)
        (Ensures-mono _ _ (worker answer true ns)
          (t ++ post n ∷ [] ++ sleep seconds ∷ [] ++ post n ∷ [] ++ sleep 1 ∷ []) (later _)
          (λ d u p. after_two n ns t u seconds p))

  -- Where no answer has a `Retry-After` that is not a number, the worker posts every notice of the
  -- queue, in order, once or twice, with a pause after each, and does not end with an error,
  -- whatever else Discord answers.
  pub worker_lem :
      (ns : List Notice) (t : List Step)
      → ((u : List Step) → is_readable (answer u) ≡ true)
      → Ensures (worker answer true ns) (λ d u. Delivered ns t u) t
  unfolding worker Delivered
  worker_lem [] t readable = ([], at_end, sym (append-nil t))
  worker_lem (n ∷ ns) t readable =
      one_notice n ns t (answer t) refl (readable t) (λ v. worker_lem ns v readable)
