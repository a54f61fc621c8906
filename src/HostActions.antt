-- ===== src/HostActions.antt =====
-- core/host_helper_client.py, host_actions/services.py and host_actions/api/views.py: how the panel
-- asks the host-action daemon. The socket is a parameter that answers with what it carries back;
-- the JSON library's writing of a request and reading of a reply are parameters too.
pub mod Link
pub mod Daemon
mod Examples
use media_stack.Common.{Bool, Option, Text, codes, if◌then◌else◌, none, not, some, ℕ}
use media_stack.Common.Run.{Run, ok, pure, raise, ◌>>=◌}
use media_stack.Helper.{Bytes, Message, Response}

-- What comes of a connection: there is no socket file, a call raised OSError, or the peer closed
-- after the data `Wire`.
pub data Answer {ℓ} (Wire : Type ℓ) : Type ℓ where
  missing : Answer Wire
  os_failure : Answer Wire
  answered : Wire → Answer Wire

pub data Error : Type 0 where
  not_installed request_failed malformed_reply : Error
  not_confirmed : (label : Text) → Error
  action_failed : (label : Text) → Message → Error

-- The HTTP status of the reply.
unfoldable pub status_code : Error → ℕ
status_code not_installed = 503
status_code (not_confirmed label) = 400
status_code _ = 502

-- The views, with the `label` of each and the action string that its service sends.
pub data Action : Type 0 where
  reboot pacman_sync pacman_upgrade : Action

unfoldable pub label : Action → Text
label reboot = codes "Reboot"
label pacman_sync = codes "Package database sync"
label pacman_upgrade = codes "Package upgrade"

unfoldable pub verb : Action → Text
verb reboot = codes "reboot"
verb pacman_sync = codes "pacman_sync"
verb pacman_upgrade = codes "pacman_upgrade"

-- The end of `_ConfirmedActionView.post`.
unfoldable pub conclude {ℓ} : {Req : Type ℓ} → Action → Response → Run Req Error (Text × Message)
conclude a result =
    if result.ok
    then pure (label a, result.message)
    else raise (action_failed (label a) result.message)

module _ {ℓ κ} {Req : Type ℓ} {Wire : Type κ} (request_line : Text → Bytes)
    (read_reply : Wire → Option Response) (connect : Bytes → Run Req Error (Answer Wire)) where
  -- What `call_host_helper` makes of the connection.
  unfoldable pub read_answer : Answer Wire → Run Req Error Response
  read_answer missing = raise not_installed
  read_answer os_failure = raise request_failed
  read_answer (answered wire) = elim (read_reply wire) [
    | none ↦ raise malformed_reply
    | some reply ↦ pure reply
  ]

  unfoldable pub call_host_helper : Text → Run Req Error Response
  unfolding read_answer
  call_host_helper action = do answer ← connect (request_line action); read_answer answer

  -- `_ConfirmedActionView.post` with `call_action` of each view.
  unfoldable pub post : Action → (confirm : Bool) → Run Req Error (Text × Message)
  unfolding call_host_helper conclude verb label
  post a confirm =
      if not confirm
      then raise (not_confirmed (label a))
      else do result ← call_host_helper (verb a); conclude a result
