-- ===== src/Starvation/Threshold.antt =====
-- When core/import_starvation.py calls an application starved.
use media_stack.Common.{
  Bool, List, Option, String, [], any_of, any_of-congr, any_of-keep, arith, false, get_default,
  keep, ltb, ltb_ℤ, max_ℤ, negsuc, none, pos, refl, some, sub_ℕ, ℕ, ℤ, ◌&&◌, ◌+◌, ◌||◌, ◌∙◌, ◌∷◌,
  ◌≡◌,
}
use media_stack.Arr.Api.{App, Command}
use media_stack.Starvation.{
  Lag, is_active, is_waiting, judge, max_age, parse_ts, round_seconds, round_up, starvation_of,
  starvation_threshold_seconds,
}

over : ℤ → Bool
over a = ltb_ℤ (pos 300500000) a

round_up_lem : (n : ℕ) → ltb 300 (round_up n) ≡ ltb 300500000 n
unfolding round_up
round_up_lem n = ground arith

round_seconds_lem : (a : ℤ) → ltb_ℤ (pos starvation_threshold_seconds) (round_seconds a) ≡ over a
unfolding over round_seconds
round_seconds_lem (pos n) = ground (arith, round_up_lem n)
round_seconds_lem (negsuc n) = ground arith

over_max : Option ℤ → Bool
over_max none = false
over_max (some a) = over a

over-max_ℤ : (a b : ℤ) → over (max_ℤ a b) ≡ (over a || over b)
unfolding over
over-max_ℤ a b = ground arith

module _ (from_iso : String → Option ℕ) (now : ℕ) where
  -- The command was queued more than 300.5 seconds ago.
  unfoldable pub overdue : Command → Bool
  overdue c = elim (parse_ts from_iso c.queued) [
    | none ↦ false
    | some ts ↦ ltb (ts + 300500000) now
  ]

  over-sub : (ts : ℕ) → over (sub_ℕ now ts) ≡ ltb (ts + 300500000) now
  unfolding over
  over-sub ts = ground arith

  max_age_lem : (cs : List Command) → over_max (max_age from_iso now cs) ≡ any_of overdue cs
  unfolding max_age any_of overdue over_max
  max_age_lem [] = refl
  max_age_lem (c ∷ rest) =
      go (parse_ts from_iso c.queued) (max_age from_iso now rest) (max_age_lem rest)
    where
      go :
          (t : Option ℕ) (later : Option ℤ)
          → over_max later ≡ any_of overdue rest
          → over_max (elim t as (λ z. Option ℤ) [
            | none ↦ later
            | some ts ↦ elim later as (λ z. Option ℤ) [
              | none ↦ some (sub_ℕ now ts)
              | some a ↦ some (max_ℤ (sub_ℕ now ts) a)
            ]
          ])
            ≡ ((elim t as (λ z. Bool) [ none ↦ false | some ts ↦ ltb (ts + 300500000) now ])
                || any_of overdue rest)
      go none later h = h
      go (some ts) none h = ground (arith, over-sub ts)
      go (some ts) (some a) h = ground (arith, over-sub ts, over-max_ℤ (sub_ℕ now ts) a)

  over-default : (o : Option ℤ) → over (get_default (pos 0) o) ≡ over_max o
  unfolding over over_max
  over-default none = ground arith
  over-default (some a) = refl

  waiting_is_active : (c : Command) → (is_active c && is_waiting c) ≡ is_waiting c
  unfolding is_waiting
  waiting_is_active c = ground arith

  -- An application is called starved exactly when some refresh command is queued, and has been for
  -- more than 300.5 seconds: the rounding of the age moves the threshold by half a second.
  pub starved-eq-any_of :
      (app : App) (commands : List Command) (lag : Lag)
      → (judge app (starvation_of from_iso now commands) lag).starved
        ≡ any_of (λ c. is_waiting c && overdue c) commands
  unfolding judge starvation_of
  starved-eq-any_of app commands lag =
      let waiting = keep is_waiting (keep is_active commands) in
      round_seconds_lem (get_default (pos 0) (max_age from_iso now waiting))
      ∙ over-default (max_age from_iso now waiting)
      ∙ max_age_lem waiting
      ∙ any_of-keep overdue is_waiting (keep is_active commands)
      ∙ any_of-keep (λ c. is_waiting c && overdue c) is_active commands
      ∙ any_of-congr (λ c. is_active c && (is_waiting c && overdue c))
          (λ c. is_waiting c && overdue c) commands (λ c. ground (arith, waiting_is_active c))
