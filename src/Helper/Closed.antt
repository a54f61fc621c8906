-- ===== src/Helper/Closed.antt =====
-- What the host-action daemon runs and writes for each connection.
use media_stack.Common.{
  All, All-append, Bool, Bool-cases, List, Option, Text, [], codes, inl, inr, length, lookup, none,
  refl, some, strip, text_eq, ℕ, ◌++◌, ◌==◌, ◌∷◌, ◌≡◌, ◌⊎◌,
}
use media_stack.Common.Run.{Done, Keeps, Keeps-bind, Run, call, done, pure, ◌>>=◌}
use media_stack.Helper.{
  Bytes, Crash, Exec, Payload, Request, Response, Value, Verb, answer_one, close, handle_action,
  handle_payload, handle_request, log, malformed, not_object, object, other, recv_loop, refusal,
  report, respond, run, run_verb, send, sendall, serve, serve_one, text, unknown_action, verbs,
}

Same : List Text → ℕ → List Text → ℕ → Type 0
Same argv timeout words limit = (argv ≡ words) × (timeout ≡ limit)

-- A command is one of the three, with its own timeout; every other effect is free.
IsFixed : Request → Type 0
unfolding Same
IsFixed (run argv timeout) =
    Same argv timeout (codes "systemctl" ∷ codes "reboot" ∷ []) 60
    ⊎ (Same argv timeout (codes "pacman" ∷ codes "-Sy" ∷ codes "--noconfirm" ∷ []) 120
        ⊎ Same argv timeout (codes "pacman" ∷ codes "-Syu" ∷ codes "--noconfirm" ∷ []) 1800)
IsFixed _ = Unit

IsFixedVerb : Verb → Type 0
unfolding IsFixed
IsFixedVerb v = IsFixed (run v.argv v.timeout)

OnSome {ℓ κ} : {A : Type ℓ} → (A → Type κ) → Option A → Type κ
OnSome P none = Unit
OnSome P (some x) = P x

lookup-All {ℓ κ} :
    {A : Type ℓ} (P : A → Type κ) (key : Text) (table : List (Text × A))
    → All (λ entry. P entry.1) table
    → OnSome P (lookup key table)
unfolding lookup OnSome
lookup-All P key [] h = tt
lookup-All P key (entry ∷ rest) h = elim (Bool-cases (text_eq entry.0 key)) [
  | inl e ↦ rw e h.0
  | inr e ↦ rw e (lookup-All P key rest h.1)
]

verbs-AllFixed : All (λ entry. IsFixedVerb entry.1) verbs
unfolding IsFixedVerb IsFixed Same
verbs-AllFixed = (inl (refl, refl), (inr (inl (refl, refl)), (inr (inr (refl, refl)), tt)))

pub AllFixed : List Request → Type 0
unfolding IsFixed
AllFixed t = All IsFixed t

pub start-AllFixed : AllFixed []
unfolding AllFixed
start-AllFixed = tt

snoc-AllFixed : (t : List Request) (q : Request) → IsFixed q → AllFixed t → AllFixed (t ++ q ∷ [])
unfolding AllFixed
snoc-AllFixed t q r h = All-append IsFixed t (q ∷ []) h (r, tt)

module _ (loads : Text → Payload) (decode : Bytes → Text) (exec : List Request → Exec)
    (delivered : List Request → Bool) where
  run_verb-Keeps : (action : Text) → Keeps AllFixed (run_verb loads decode exec delivered action)
  unfolding run_verb IsFixedVerb OnSome
  run_verb-Keeps action =
      go (lookup action verbs) (lookup-All IsFixedVerb action verbs verbs-AllFixed)
    where
      go :
          (o : Option Verb)
          → OnSome IsFixedVerb o
          → Keeps AllFixed (elim o as (λ z. Run Request Crash Response) [
            | none ↦ pure (refusal (unknown_action action))
            | some verb ↦ do
              result ← call exec (run verb.argv verb.timeout)
              pure (report action verb result)
          ])
      go none h t k = k
      go (some verb) h t k = snoc-AllFixed t (run verb.argv verb.timeout) h k

  handle_payload-Keeps :
      (p : Payload) → Keeps AllFixed (handle_payload loads decode exec delivered p)
  unfolding handle_payload handle_action
  handle_payload-Keeps malformed = λ t k. k
  handle_payload-Keeps not_object = λ t k. k
  handle_payload-Keeps (object fields) = go (lookup (codes "action") fields)
    where
      go : (o : Option Value) → Keeps AllFixed (handle_action loads decode exec delivered o)
      go none = λ t k. k
      go (some other) = λ t k. k
      go (some (text action)) =
          Keeps-bind AllFixed (run_verb loads decode exec delivered action)
            (λ response. pure (response, some action)) (run_verb-Keeps action) (λ response t k. k)

  respond-Keeps : (o : Option Bytes) → Keeps AllFixed (respond loads decode exec delivered o)
  unfolding respond handle_request
  respond-Keeps none = λ t k. k
  respond-Keeps (some received) = elim (Bool-cases (length (strip (decode received)) == 0)) [
    | inl e ↦ λ t k. rw e k
    | inr e ↦ λ t k. rw e (handle_payload-Keeps (loads (strip (decode received))) t k)
  ]

  serve_one-Keeps :
      (chunks : List Bytes) → Keeps AllFixed (serve_one loads decode exec delivered chunks)
  unfolding serve_one IsFixed
  serve_one-Keeps chunks t k =
      snoc-AllFixed (answer_one loads decode exec delivered chunks t).1 close tt (
        Keeps-bind AllFixed (respond loads decode exec delivered (recv_loop [] chunks)) rest
          (respond-Keeps (recv_loop [] chunks)) rest-Keeps t k)
    where
      rest : Response × Option Text → Run Request Crash Done
      rest answered = do
        _ ← call (λ t. done) (log answered.1 answered.0.ok answered.0.returncode)
        send loads decode exec delivered answered.0

      rest-Keeps : (answered : Response × Option Text) → Keeps AllFixed (rest answered)
      rest-Keeps answered u all =
          let written = u ++ log answered.1 answered.0.ok answered.0.returncode ∷ [] in
          elim (Bool-cases (delivered written)) [
            | inl e ↦ rw e (
                snoc-AllFixed written (sendall answered.0) tt
                  (snoc-AllFixed u (log answered.1 answered.0.ok answered.0.returncode) tt all))
            | inr e ↦ rw e (
                snoc-AllFixed written (sendall answered.0) tt
                  (snoc-AllFixed u (log answered.1 answered.0.ok answered.0.returncode) tt all))
          ]

  -- Whatever the peers send and the commands answer, the daemon only ever runs these three commands,
  -- each with its own timeout: "systemctl reboot" (60 s), "pacman -Sy --noconfirm" (120 s) and
  -- "pacman -Syu --noconfirm" (1800 s).
  pub serve-AllFixed :
      (connections : List (List Bytes))
      → Keeps AllFixed (serve loads decode exec delivered connections)
  unfolding serve
  serve-AllFixed [] = λ t k. k
  serve-AllFixed (connection ∷ rest) =
      Keeps-bind AllFixed (serve_one loads decode exec delivered connection)
        (λ _. serve loads decode exec delivered rest) (serve_one-Keeps connection)
        (λ _. serve-AllFixed rest)
