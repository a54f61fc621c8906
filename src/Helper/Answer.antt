-- ===== src/Helper/Answer.antt =====
-- What the host-action daemon does for one connection, in order.
use mathlib.Core.List.{append-nil}
use media_stack.Common.{
  Bool, Bool-cases, List, Option, Text, [], ap, arith, codes, if◌then◌else◌, inl, inr, length,
  lookup, none, refl, some, strip, sym, ◌++◌, ◌<◌, ◌==◌, ◌∷◌, ◌≡◌, ◌⊎◌,
}
use media_stack.Common.Run.{
  Done, Ensures, Ensures-bind, Ensures-mono, Result, Returned, Run, call, done, err, ok, pure,
  ◌>>=◌,
}
use media_stack.Helper.Outcome.{AnswersAction, AnswersPayload, AnswersVerb, report-RanAs}
use media_stack.Helper.{
  Bytes, Crash, Exec, Payload, Request, Response, Value, Verb, close, empty_request, handle_action,
  handle_payload, handle_request, log, malformed, not_object, object, other, recv_loop, refusal,
  report, respond, run, run_verb, send, sendall, serve_one, text, too_large, unknown_action, verbs,
}

-- The verb that the value of "action" names.
verb_of : Option Value → Option Verb
verb_of (some (text action)) = lookup action verbs
verb_of _ = none

verb_in : Payload → Option Verb
verb_in (object fields) = verb_of (lookup (codes "action") fields)
verb_in _ = none

pub commands : Option Verb → List Request
commands none = []
commands (some verb) = run verb.argv verb.timeout ∷ []

module _ (loads : Text → Payload) (decode : Bytes → Text) where
  -- The verb that the bytes of a request ask for.
  pub asked : Option Bytes → Option Verb
  asked none = none
  asked (some received) =
      if length (strip (decode received)) == 0
      then none
      else verb_in (loads (strip (decode received)))

  -- How the bytes of a request are answered, if the command that they ask for ends with `x`.
  abbrev pub Answers : Option Bytes → Exec → Response × Option Text → Type 0
  Answers none x answered = answered ≡ (refusal too_large, none)
  Answers (some received) x answered =
      ((length (strip (decode received)) ≡ 0) × (answered ≡ (refusal empty_request, none)))
      ⊎ ((0 < length (strip (decode received)))
          × AnswersPayload (loads (strip (decode received))) x answered)

module _ (loads : Text → Payload) (decode : Bytes → Text) (exec : List Request → Exec)
    (delivered : List Request → Bool) where
  -- The action returns a value with `D` after the commands `o`.
  abbrev Runs {ℓ} :
      {A : Type ℓ} → (A → Type 0) → Option Verb → List Request → Run Request Crash A → Type 0
  Runs D o t m = Ensures m (λ x u. D x × (u ≡ t ++ commands o)) t

  run_verb-Runs :
      (action : Text) (t : List Request)
      → Runs
          (λ r. AnswersVerb action (lookup action verbs) (exec t) (r, some action))
          (lookup action verbs)
          t
          (run_verb loads decode exec delivered action)
  unfolding run_verb commands
  run_verb-Runs action t = go (lookup action verbs)
    where
      go :
          (o : Option Verb)
          → Runs
              (λ r. AnswersVerb action o (exec t) (r, some action))
              o
              t
              (elim o as (λ z. Run Request Crash Response) [
                | none ↦ pure (refusal (unknown_action action))
                | some verb ↦ do
                  result ← call exec (run verb.argv verb.timeout)
                  pure (report action verb result)
              ])
      go none = (refl, sym (append-nil t))
      go (some verb) = ((report-RanAs action verb (exec t), refl), refl)

  handle_action-Runs :
      (v : Option Value) (t : List Request)
      → Runs (AnswersAction v (exec t)) (verb_of v) t (handle_action loads decode exec delivered v)
  unfolding handle_action commands verb_of
  handle_action-Runs none t = (refl, sym (append-nil t))
  handle_action-Runs (some other) t = (refl, sym (append-nil t))
  handle_action-Runs (some (text action)) t =
      Ensures-bind
        (λ r u.
          AnswersVerb action (lookup action verbs) (exec t) (r, some action)
          × (u ≡ t ++ commands (lookup action verbs)))
        (λ x u.
          AnswersVerb action (lookup action verbs) (exec t) x
          × (u ≡ t ++ commands (lookup action verbs)))
        (run_verb loads decode exec delivered action) (λ response. pure (response, some action)) t
        (run_verb-Runs action t) (λ response u h. h)

  handle_payload-Runs :
      (p : Payload) (t : List Request)
      → Runs
          (AnswersPayload p (exec t))
          (verb_in p)
          t
          (handle_payload loads decode exec delivered p)
  unfolding handle_payload commands verb_in
  handle_payload-Runs malformed t = (refl, sym (append-nil t))
  handle_payload-Runs not_object t = (refl, sym (append-nil t))
  handle_payload-Runs (object fields) t = handle_action-Runs (lookup (codes "action") fields) t

  respond-Runs :
      (o : Option Bytes) (t : List Request)
      → Runs
          (Answers loads decode o (exec t))
          (asked loads decode o)
          t
          (respond loads decode exec delivered o)
  unfolding respond handle_request asked commands
  respond-Runs none t = (refl, sym (append-nil t))
  respond-Runs (some received) t = elim (Bool-cases (length (strip (decode received)) == 0)) [
    | inl e ↦ rw e (inl (ground (arith, e), refl), sym (append-nil t))
    | inr e ↦
        let k = handle_payload-Runs (loads (strip (decode received))) t in
        rw e (
          Ensures-mono
            (λ x u.
              AnswersPayload (loads (strip (decode received))) (exec t) x
              × (u ≡ t ++ commands (verb_in (loads (strip (decode received))))))
            (λ x u.
              Answers loads decode (some received) (exec t) x
              × (u ≡ t ++ commands (verb_in (loads (strip (decode received))))))
            (handle_request loads decode exec delivered (strip (decode received))) t k
            (λ x u h. (inr (ground (arith, e), h.0), h.1)))
  ]

  -- What `serve_one` is left with after the answer `answered`: its two writes and the close.
  pub ending : Response × Option Text → List Request
  ending answered =
      log answered.1 answered.0.ok answered.0.returncode ∷ sendall answered.0 ∷ close ∷ []

  -- For each connection, the daemon runs the command that the request asks for and no other, then
  -- logs the outcome, sends the same outcome as its reply and closes, whether or not the peer still
  -- listens, and whatever the request holds. A request that names no known verb is refused, with the
  -- message for its fault. After a command the reply is ok exactly if it ended with the code 0, and
  -- shows that code and the last 4000 characters of what it printed, stripped, or a fixed word if
  -- that is nothing; a command that timed out or did not start is a failure without a code.
  pub serve_one_lem :
      (chunks : List Bytes) (t : List Request)
      → (answered : Response × Option Text) × Answers loads decode
          (recv_loop [] chunks)
          (exec t)
          answered
        × ((serve_one loads decode exec delivered chunks t).1
            ≡ t ++ commands (asked loads decode (recv_loop [] chunks)) ++ ending answered)
  unfolding serve_one ending
  serve_one_lem chunks t = go (m t).0 (m t).1 (respond-Runs (recv_loop [] chunks) t)
    where
      m : Run Request Crash (Response × Option Text)
      m = respond loads decode exec delivered (recv_loop [] chunks)

      o : Option Verb
      o = asked loads decode (recv_loop [] chunks)

      rest : Response × Option Text → Run Request Crash Done
      rest answered = do
        _ ← call (λ u. done) (log answered.1 answered.0.ok answered.0.returncode)
        send loads decode exec delivered answered.0

      sent :
          (answered : Response × Option Text) (u : List Request)
          → (rest answered u).1
            ≡ u
              ++ log answered.1 answered.0.ok answered.0.returncode ∷ []
              ++ sendall answered.0 ∷ []
      sent answered u =
          elim (Bool-cases
            (delivered (u ++ log answered.1 answered.0.ok answered.0.returncode ∷ []))) [
              | inl e ↦ rw e refl
              | inr e ↦ rw e refl
            ]

      joins :
          (u : List Request) (answered : Response × Option Text)
          → u
              ++ log answered.1 answered.0.ok answered.0.returncode ∷ []
              ++ sendall answered.0 ∷ []
              ++ close ∷ []
            ≡ u ++ ending answered
      joins [] answered = refl
      joins (q ∷ u) answered = ap (λ w. q ∷ w) (joins u answered)

      go :
          (r : Result Crash (Response × Option Text)) (u : List Request)
          → Returned
              (λ x w. Answers loads decode (recv_loop [] chunks) (exec t) x × (w ≡ t ++ commands o))
              r
              u
          → (answered : Response × Option Text) × Answers loads decode
              (recv_loop [] chunks)
              (exec t)
              answered
            × ((elim r as (λ z. Result Crash Done × List Request) [
              | ok a ↦ rest a u
              | err e ↦ (err e, u)
            ]).1
                  ++ close ∷ []
                ≡ t ++ commands o ++ ending answered)
      go (ok answered) u h =
          (answered, h.0, rw (sent answered u, h.1) (joins (t ++ commands o) answered))
      go (err e) u p = absurd p
