-- ===== src/Starvation/Backlog.antt =====
-- What core/import_starvation.py cancels, and for whom.
use mathlib.Core.List.{append_assoc, append-nil}
use media_stack.Common.{
  Bool-cases, List, [], arith, count_if, inl, inr, keep, length, length-keep, map, refl, some, sym,
  ◌++◌, ◌+◌, ◌∙◌, ◌∷◌, ◌≡◌,
}
use media_stack.Common.Run.{Ensures, Ensures-after, Ensures-mono, Run, ok}
use media_stack.Arr.Api.{
  App, Command, Error, Request, Servers, delete_command, delete_queue, get_commands, is_success,
  post_search, put_client_config,
}
use media_stack.Starvation.{
  Cleared, cancel_all, clear_search_backlog, get_all_commands, is_queued_search,
}

-- A request that changes nothing.
abbrev pub IsRead : Request → Type 0
IsRead (delete_command app n) = ⊥
IsRead (delete_queue app n skip) = ⊥
IsRead (post_search app ids) = ⊥
IsRead (put_client_config app c) = ⊥
IsRead _ = Unit

cancels : App → List Command → List Request
cancels app cs = map (λ c. delete_command app c.id) cs

module _ (srv : Servers) (app : App) where
  abbrev Cancelled : List Command → Cleared → List Request → Cleared → List Request → Type 0
  Cancelled targets c t c' u =
      (c'.targeted ≡ c.targeted)
      × (c'.cancelled + c'.failed ≡ c.cancelled + c.failed + length targets)
      × (u ≡ t ++ cancels app targets)

  cancel_all_lem :
      (targets : List Command) (c : Cleared) (t : List Request)
      → Ensures (cancel_all srv app targets c) (Cancelled targets c t) t
  unfolding cancel_all cancels
  cancel_all_lem [] c t = (refl, omega arith, sym (append-nil t))
  cancel_all_lem (target ∷ rest) c t =
      elim (Bool-cases (is_success (srv.delete_command_reply app target.id t))) [
        | inl e ↦
            let d : Cleared = record c { cancelled = c.cancelled + 1 } in
            rw e (step d (omega arith) refl (cancel_all_lem rest d (t ++ sent)))
        | inr e ↦
            let d : Cleared = record c { failed = c.failed + 1 } in
            rw e (step d (omega arith) refl (cancel_all_lem rest d (t ++ sent)))
      ]
    where
      sent : List Request
      sent = delete_command app target.id ∷ []

      step :
          (d : Cleared)
          → d.cancelled + d.failed ≡ c.cancelled + c.failed + 1
          → d.targeted ≡ c.targeted
          → Ensures (cancel_all srv app rest d) (Cancelled rest d (t ++ sent)) (t ++ sent)
          → Ensures (cancel_all srv app rest d) (Cancelled (target ∷ rest) c t) (t ++ sent)
      step d one same ih =
          Ensures-mono (Cancelled rest d (t ++ sent)) (Cancelled (target ∷ rest) c t)
            (cancel_all srv app rest d) (t ++ sent) ih
            λ c' u h. (h.0 ∙ same, omega arith, h.2 ∙ append_assoc t sent (cancels app rest))

  get_all_commands_lem :
      (commands : List Command) (t : List Request)
      → srv.commands app t ≡ some commands
      → get_all_commands srv app t ≡ (ok commands, t ++ get_commands app ∷ [])
  unfolding get_all_commands
  get_all_commands_lem commands t listed = rw (listed, get_all_commands)

  -- What the clearing of `commands` has done from the requests `t` to `u`.
  abbrev pub IsCleared : List Command → List Request → Cleared → List Request → Type 0
  IsCleared commands t c u =
      (c.targeted ≡ count_if is_queued_search commands)
      × (c.cancelled + c.failed ≡ c.targeted)
      × (u
          ≡ (t ++ get_commands app ∷ [])
            ++ map (λ c. delete_command app c.id) (keep is_queued_search commands))

  -- When the application lists its commands, exactly its queued bulk searches are cancelled, one
  -- request for each in the order of the list and nothing else, and each is counted as cancelled or
  -- as failed. A started search or a queued refresh is left alone.
  pub clear_search_backlog_lem :
      (commands : List Command) (t : List Request)
      → srv.commands app t ≡ some commands
      → Ensures (clear_search_backlog srv app) (IsCleared commands t) t
  unfolding clear_search_backlog cancels
  clear_search_backlog_lem commands t listed =
      let targets = keep is_queued_search commands in
      let none_yet : Cleared = record { targeted = length targets; cancelled = 0; failed = 0 } in
      let u : List Request = t ++ get_commands app ∷ [] in
      Ensures-after (IsCleared commands t) (get_all_commands srv app) cancel_queued t
        (get_all_commands_lem commands t listed)
        (Ensures-mono (Cancelled targets none_yet u) (IsCleared commands t)
          (cancel_all srv app targets none_yet) u (cancel_all_lem targets none_yet u)
          λ c v h. (h.0 ∙ length-keep is_queued_search commands, omega (arith, h.0, h.1), h.2))
    where
      cancel_queued : List Command → Run Request Error Cleared
      cancel_queued cs =
          let targets = keep is_queued_search cs in
          cancel_all srv app targets
            (record { targeted = length targets; cancelled = 0; failed = 0 })
