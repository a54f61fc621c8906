-- ===== src/HostActions/Link.antt =====
-- What stands between the views and the daemon: the commands of the actions, the JSON library and
-- the stream.
use media_stack.Common.{
  All, List, Option, Text, [], codes, false, length, lookup, refl, some, strip, text_eq, ◌++◌, ◌==◌,
  ◌∷◌, ◌≡◌, ◌≤◌,
}
use media_stack.Helper.{Bytes, Payload, Response, Verb, object, text, verbs}
use media_stack.Helper.Framing.{IsPiece, joined}
use media_stack.HostActions.{Action, pacman_sync, pacman_upgrade, reboot, verb}

-- The command of each action.
abbrev pub command : Action → Verb
command reboot = record { argv = codes "systemctl" ∷ codes "reboot" ∷ []; timeout = 60 }
command pacman_sync = record {
  argv = codes "pacman" ∷ codes "-Sy" ∷ codes "--noconfirm" ∷ [];
  timeout = 120;
}
command pacman_upgrade = record {
  argv = codes "pacman" ∷ codes "-Syu" ∷ codes "--noconfirm" ∷ [];
  timeout = 1800;
}

pub verb-command : (a : Action) → lookup (verb a) verbs ≡ some (command a)
unfolding lookup verb text_eq
verb-command reboot = refl
verb-command pacman_sync = refl
verb-command pacman_upgrade = refl

-- What is relied on of the JSON library and of the stream for the request of the action `a`: the
-- daemon reads the request as it was written, the panel reads a reply as it was written, and the
-- stream carries all bytes in order, in pieces that are not empty.
pub record Link {κ} (Wire : Type κ) (a : Action) : Type κ where
  pub loads : Text → Payload
  pub decode : Bytes → Text
  pub request_line : Text → Bytes
  pub wire : Response → Wire
  pub read_reply : Wire → Option Response
  pub read_back : (r : Response) → read_reply (wire r) ≡ some r
  pub readable :
      loads (strip (decode (request_line (verb a)))) ≡ object ((codes "action", text (verb a)) ∷ [])
  pub is_text : (length (strip (decode (request_line (verb a)))) == 0) ≡ false
  pub short : length (request_line (verb a)) ≤ 4096
  pub split : Bytes → List Bytes
  pub pieces : List Bytes
  pub last : Bytes
  pub split_lem : split (request_line (verb a)) ≡ pieces ++ (last ++ 10 ∷ []) ∷ []
  pub in_order : request_line (verb a) ≡ joined pieces ++ (last ++ 10 ∷ [])
  pub are_pieces : All IsPiece pieces
