-- ===== src/Helper.antt =====
-- scripts/host-helper/helper.py, the daemon that takes the panel's host actions. What the JSON
-- parser, the UTF-8 decoder, the started commands and the peers answer are parameters.
pub mod Answer
pub mod Closed
pub mod Framing
pub mod Outcome
mod Examples
use media_stack.Common.{
  Bool, List, Option, Text, [], codes, drop_text, false, if◌then◌else◌, length, lookup, ltb, negsuc,
  none, pos, some, strip, true, ℕ, ℤ, ◌++◌, ◌-◌, ◌==◌, ◌∷◌,
}
use media_stack.Common.Run.{Done, Run, call, done, ok, pure, raise, ◌>>=◌}

-- A text of code points; bytes are numbers as well.
abbrev pub Bytes : Type 0
Bytes = List ℕ

pub record Verb : Type 0 where
  pub argv : List Text
  pub timeout : ℕ

abbrev pub max_request_bytes : ℕ
max_request_bytes = 4096

abbrev pub verbs : List (Text × Verb)
verbs =
    (codes "reboot", record { argv = codes "systemctl" ∷ codes "reboot" ∷ []; timeout = 60 })
    ∷ (
      codes "pacman_sync",
      record { argv = codes "pacman" ∷ codes "-Sy" ∷ codes "--noconfirm" ∷ []; timeout = 120 },
    )
    ∷ (
      codes "pacman_upgrade",
      record { argv = codes "pacman" ∷ codes "-Syu" ∷ codes "--noconfirm" ∷ []; timeout = 1800 },
    )
    ∷ []

-- What `json.loads` gives: the values of an object matter only where they are texts.
pub data Value : Type 0 where
  text : Text → Value
  other : Value

pub data Payload : Type 0 where
  malformed : Payload
  not_object : Payload
  object : List (Text × Value) → Payload

-- What `subprocess.run` does.
pub data Exec : Type 0 where
  exited : (returncode : ℤ) (stdout stderr : Text) → Exec
  expired : Exec
  os_error : Text → Exec

-- The texts of the replies, with the values that they show.
pub data Message : Type 0 where
  unknown_action : Text → Message
  timed_out : Text → ℕ → Message
  failed_to_start : Text → Text → Message
  output : Text → Message
  succeeded failed : Message
  malformed_json must_be_object must_include_action too_large empty_request : Message

pub record Response : Type 0 where
  pub ok : Bool
  pub message : Message
  pub returncode : Option ℤ

pub data Request : Type 0 where
  run : List Text → ℕ → Request
  log : (action : Option Text) (ok : Bool) (returncode : Option ℤ) → Request
  sendall : Response → Request
  close : Request

pub data Crash : Type 0 where
  broken_pipe : Crash

abbrev pub refusal : Message → Response
refusal m = record { ok = false; message = m; returncode = none }

abbrev pub is_zero : ℤ → Bool
is_zero (pos n) = n == 0
is_zero (negsuc n) = false

-- `output[-4000:]`
abbrev pub last_chars : ℕ → Text → Text
last_chars n t = drop_text (length t - n) t

abbrev pub message_of : Text → Bool → Message
message_of [] true = succeeded
message_of [] false = failed
message_of (c ∷ t) good = output (last_chars 4000 (c ∷ t))

-- The end of `_run_verb`, on what the command did.
unfoldable pub report : Text → Verb → Exec → Response
report action verb expired = refusal (timed_out action verb.timeout)
report action verb (os_error e) = refusal (failed_to_start action e)
report action verb (exited code out errors) = record {
  ok = is_zero code;
  message = message_of (strip (out ++ errors)) (is_zero code);
  returncode = some code;
}

-- The loop of `_recv_request`: the bytes received so far, and what `recv` gives next; after the
-- last chunk the peer has closed its side, and `recv` gives no bytes.
unfoldable pub ends_with_newline : Bytes → Bool
ends_with_newline [] = false
ends_with_newline (c ∷ []) = c == 10
ends_with_newline (c ∷ d ∷ t) = ends_with_newline (d ∷ t)

unfoldable pub recv_loop : Bytes → List Bytes → Option Bytes
unfolding ends_with_newline
recv_loop received [] = some received
recv_loop received (chunk ∷ rest) =
    let later = recv_loop (received ++ chunk) rest in
    if ends_with_newline received
    then some received
    else if length chunk == 0
    then some received
    else if ltb max_request_bytes (length (received ++ chunk))
    then none
    else later

module _ (loads : Text → Payload) (decode : Bytes → Text) (exec : List Request → Exec)
    (delivered : List Request → Bool) where
  unfoldable pub run_verb : Text → Run Request Crash Response
  unfolding lookup report
  run_verb action = elim (lookup action verbs) [
    | none ↦ pure (refusal (unknown_action action))
    | some verb ↦ do
      result ← call exec (run verb.argv verb.timeout)
      pure (report action verb result)
  ]

  -- On the value of "action" in the request.
  unfoldable pub handle_action : Option Value → Run Request Crash (Response × Option Text)
  unfolding run_verb
  handle_action (some (text action)) = do response ← run_verb action; pure (response, some action)
  handle_action _ = pure (refusal must_include_action, none)

  unfoldable pub handle_payload : Payload → Run Request Crash (Response × Option Text)
  unfolding lookup handle_action
  handle_payload malformed = pure (refusal malformed_json, none)
  handle_payload not_object = pure (refusal must_be_object, none)
  handle_payload (object fields) = handle_action (lookup (codes "action") fields)

  unfoldable pub handle_request : Text → Run Request Crash (Response × Option Text)
  unfolding handle_payload
  handle_request raw = handle_payload (loads raw)

  -- What `serve_one` makes of the received bytes.
  unfoldable pub respond : Option Bytes → Run Request Crash (Response × Option Text)
  unfolding handle_request
  respond none = pure (refusal too_large, none)
  respond (some received) =
      if length (strip (decode received)) == 0
      then pure (refusal empty_request, none)
      else handle_request (strip (decode received))

  abbrev pub send : Response → Run Request Crash Done
  send response = do
    arrived ← call delivered (sendall response)
    if arrived then pure done else raise broken_pipe

  abbrev pub answer_one : List Bytes → Run Request Crash Done
  answer_one chunks = do
    answered ← respond (recv_loop [] chunks)
    _ ← call (λ t. done) (log answered.1 answered.0.ok answered.0.returncode)
    send answered.0

  -- `finally: conn.close()`
  abbrev then_close : Run Request Crash Done → Run Request Crash Done
  then_close m t = ((m t).0, (m t).1 ++ close ∷ [])

  unfoldable pub serve_one : List Bytes → Run Request Crash Done
  unfolding respond recv_loop
  serve_one chunks = then_close (answer_one chunks)

  -- `serve`, on the connections that it accepts one after the other.
  unfoldable pub serve : List (List Bytes) → Run Request Crash Done
  unfolding serve_one
  serve [] = pure done
  serve (connection ∷ rest) = do _ ← serve_one connection; serve rest
