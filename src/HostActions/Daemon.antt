-- ===== src/HostActions/Daemon.antt =====
-- The views together with the daemon that they talk to.
use mathlib.Core.List.{append_assoc}
use media_stack.Common.{
  Bool, Bool-cases, List, Option, Text, [], ap, false, if◌then◌else◌, inl, inr, leb, lookup, none,
  refl, some, text_eq, true, ℕ, ◌++◌, ◌∙◌, ◌∷◌, ◌≡◌,
}
use media_stack.Helper.{
  Bytes, Crash, Exec, Message, Request, Response, broken_pipe, close, handle_action, handle_payload,
  handle_request, log, recv_loop, report, respond, run, run_verb, send, sendall, serve_one,
}
use media_stack.Common.Run.{
  Done, Result, Run, call, done, err, ok, pure, run-bind, run-raise, ◌>>=◌,
}
use media_stack.Helper.Framing.{recv_loop-joined}
use media_stack.HostActions.{
  Action, Answer, Error, answered, call_host_helper, conclude, label, not_confirmed, os_failure,
  post, read_answer, request_failed, verb,
}
use media_stack.HostActions.Link.{Link, command, verb-command}

sent : Request → Option Response
sent (sendall r) = some r
sent _ = none

-- The last reply among the requests.
last_sent : List Request → Option Response
last_sent [] = none
last_sent (q ∷ rest) = elim (last_sent rest) [ some r ↦ some r | none ↦ sent q ]

last_sent-append :
    (u : List Request) (r : Response) → last_sent (u ++ sendall r ∷ close ∷ []) ≡ some r
unfolding last_sent sent
last_sent-append [] r = refl
last_sent-append (q ∷ u) r = rw (last_sent-append u r) refl

-- DEFAULT_TIMEOUT of the client, in seconds.
abbrev pub default_timeout : ℕ
default_timeout = 600

-- The last parameter: for the requests up to the reply, how many seconds the client has then waited.
module _ {κ} {Wire : Type κ} {a : Action} (link : Link Wire a) (exec : List Request → Exec)
    (seconds : List Request → ℕ) where
  open link use {
    loads, decode, request_line, wire, read_reply, read_back, readable, is_text, short, split,
    pieces, last, split_lem, in_order, are_pieces,
  }

  -- `settimeout`: whether the client still listens when the reply is sent after these requests.
  abbrev pub listens : List Request → Bool
  listens u = leb (seconds u) default_timeout

  -- What the client gets: the reply, or the OSError of its timeout where the reply finds it gone.
  heard : Result Crash Done → List Request → Answer Wire
  unfolding last_sent
  heard (ok d) u = elim (last_sent u) [ none ↦ os_failure | some r ↦ answered (wire r) ]
  heard (err e) u = os_failure

  -- The socket with the daemon behind it.
  pub daemon : Bytes → Run Request Error (Answer Wire)
  unfolding heard
  daemon bytes t =
      let r = serve_one loads decode exec listens (split bytes) t in (ok (heard r.0 r.1), r.1)

  received : recv_loop [] (split (request_line (verb a))) ≡ some (request_line (verb a))
  received =
      rw (split_lem, in_order) (recv_loop-joined pieces last [] are_pieces (rw in_order at short))

  -- The reply for what the command does after the requests `t`.
  unfoldable pub reply : List Request → Response
  reply t = report (verb a) (command a) (exec t)

  -- What the daemon does for the request, in order.
  pub effects : List Request → List Request
  unfolding reply
  effects t =
      run (command a).argv (command a).timeout
      ∷ log (some (verb a)) (reply t).ok (reply t).returncode
      ∷ sendall (reply t)
      ∷ close
      ∷ []

  run_verb_lem :
      (t : List Request)
      → run_verb loads decode exec listens (verb a) t
        ≡ (ok (reply t), t ++ run (command a).argv (command a).timeout ∷ [])
  unfolding run_verb reply
  run_verb_lem t = rw (verb-command a, run_verb) refl

  respond_lem :
      (t : List Request)
      → respond loads decode exec listens (some (request_line (verb a))) t
        ≡ (ok (reply t, some (verb a)), t ++ run (command a).argv (command a).timeout ∷ [])
  unfolding respond handle_request handle_payload handle_action lookup text_eq
  respond_lem t =
      rw (is_text, readable)
        (run-bind (run_verb loads decode exec listens (verb a))
          (λ response. pure (response, some (verb a))) t
          (t ++ run (command a).argv (command a).timeout ∷ []) (reply t) (run_verb_lem t))

  -- The end of `serve_one` for the request.
  served : List Request → List Request
  unfolding reply
  served t =
      t
      ++ run (command a).argv (command a).timeout ∷ []
      ++ log (some (verb a)) (reply t).ok (reply t).returncode ∷ []
      ++ sendall (reply t) ∷ []
      ++ close ∷ []

  -- The requests up to the reply.
  pub told : List Request → List Request
  unfolding reply
  told t =
      t
      ++ run (command a).argv (command a).timeout ∷ []
      ++ log (some (verb a)) (reply t).ok (reply t).returncode ∷ []

  after : Response × Option Text → Run Request Crash Done
  after out = do
    _ ← call (λ t. done) (log out.1 out.0.ok out.0.returncode)
    send loads decode exec listens out.0

  -- How the handling of the request ends.
  ends : Bool → Result Crash Done
  ends b = if b then ok done else err broken_pipe

  after_lem :
      (t : List Request) (b : Bool)
      → listens (told t) ≡ b
      → after (reply t, some (verb a)) (t ++ run (command a).argv (command a).timeout ∷ [])
        ≡ (ends b, told t ++ sendall (reply t) ∷ [])
  unfolding after told ends
  after_lem t true e = rw e refl
  after_lem t false e = rw e refl

  serve_one_run :
      (t : List Request) (b : Bool)
      → listens (told t) ≡ b
      → serve_one loads decode exec listens (split (request_line (verb a))) t ≡ (ends b, served t)
  unfolding serve_one served after told
  serve_one_run t b e =
      ap {B = Result Crash Done × List Request} (λ r. (r.0, r.1 ++ close ∷ []))
        (run-bind (respond loads decode exec listens (recv_loop [] (split (request_line (verb a)))))
            after t (t ++ run (command a).argv (command a).timeout ∷ []) (reply t, some (verb a))
            (rw received (respond_lem t))
          ∙ after_lem t b e)

  served_lem : (t : List Request) → served t ≡ t ++ effects t
  unfolding served effects
  served_lem t = simp append_assoc refl

  last_sent-served : (t : List Request) → last_sent (served t) ≡ some (reply t)
  unfolding served
  last_sent-served t =
      ap last_sent (
        append_assoc
          (t
            ++ run (command a).argv (command a).timeout ∷ []
            ++ log (some (verb a)) (reply t).ok (reply t).returncode ∷ [])
          (sendall (reply t) ∷ []) (close ∷ []))
      ∙ last_sent-append
          (t
            ++ run (command a).argv (command a).timeout ∷ []
            ++ log (some (verb a)) (reply t).ok (reply t).returncode ∷ [])
          (reply t)

  heard_lem :
      (t : List Request) (b : Bool)
      → heard (ends b) (served t) ≡ (if b then answered (wire (reply t)) else os_failure)
  unfolding heard ends
  heard_lem t true =
      ap
        (λ (o : Option Response). elim o as (λ z. Answer Wire) [
          | none ↦ os_failure
          | some r ↦ answered (wire r)
        ])
        (last_sent-served t)
  heard_lem t false = refl

  daemon_run :
      (t : List Request) (b : Bool)
      → listens (told t) ≡ b
      → daemon (request_line (verb a)) t
        ≡ (ok (if b then answered (wire (reply t)) else os_failure), t ++ effects t)
  unfolding daemon
  daemon_run t b e =
      ap {A = Result Crash Done × List Request} (λ r. (ok (heard r.0 r.1), r.1))
        (serve_one_run t b e)
      ∙ rw (heard_lem t b, served_lem t) refl

  -- What the view makes of it, by whether the client still listens.
  abbrev pub outcome : Bool → List Request → Result Error (Text × Message) × List Request
  outcome true t = conclude a (reply t) (t ++ effects t)
  outcome false t = (err request_failed, t ++ effects t)

  confirmed_lem :
      (t : List Request) (b : Bool)
      → listens (told t) ≡ b
      → post request_line read_reply daemon a true t ≡ outcome b t
  unfolding post call_host_helper read_answer
  confirmed_lem t true e =
      run-bind (call_host_helper request_line read_reply daemon (verb a)) (conclude a) t
        (t ++ effects t) (reply t)
        (run-bind (daemon (request_line (verb a))) (read_answer request_line read_reply daemon) t
            (t ++ effects t) (answered (wire (reply t))) (daemon_run t true e)
          ∙ rw (read_back (reply t), read_answer) refl)
  confirmed_lem t false e =
      run-raise (call_host_helper request_line read_reply daemon (verb a)) (conclude a) t
        (t ++ effects t) request_failed
        (run-bind (daemon (request_line (verb a))) (read_answer request_line read_reply daemon) t
          (t ++ effects t) os_failure (daemon_run t false e))

  -- Through the view, the client and the daemon together, a confirmed action runs its own command,
  -- once and nothing else. If the reply comes within the client's 600 seconds, the action is a
  -- success exactly when that reply says so; if it comes later, the view fails with the status 502,
  -- however the command ended. Without the confirmation nothing at all is sent.
  pub post-daemon :
      (confirm : Bool) (t : List Request)
      → post request_line read_reply daemon a confirm t ≡ (
          if confirm
          then (if leb (seconds (told t)) 600
              then conclude a (reply t) (t ++ effects t)
              else (err request_failed, t ++ effects t))
          else (err (not_confirmed (label a)), t))
  unfolding post
  post-daemon false t = refl
  post-daemon true t = elim (Bool-cases (listens (told t))) [
    | inl e ↦ rw e (confirmed_lem t true e)
    | inr e ↦ rw e (confirmed_lem t false e)
  ]
