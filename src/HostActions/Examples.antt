-- ===== src/HostActions/Examples.antt =====
-- A reboot through the panel and the daemon.
use media_stack.Common.{
  List, [], ap, arith, codes, if◌then◌else◌, leb, pos, refl, some, strip, true, ℕ, ◌++◌, ◌∷◌, ◌≡◌,
}
use media_stack.Common.Run.{err, ok, pure}
use media_stack.Helper.{Bytes, Exec, Request, Response, exited, object, report, succeeded, text}
use media_stack.Helper.Framing.{has_newline, joined}
use media_stack.HostActions.{
  conclude, label, missing, not_installed, post, reboot, request_failed, verb,
}
use media_stack.HostActions.Daemon.{daemon, effects, post-daemon, reply, told}
use media_stack.HostActions.Link.{Link}

-- A library that writes only the request for a reboot, and a stream that cuts it in two.
abbrev line : Bytes
line = codes "{reboot}" ++ 10 ∷ []

link : Link Response reboot
unfolding verb strip joined has_newline
link = record {
  loads = λ t. object ((codes "action", text (codes "reboot")) ∷ []);
  decode = λ b. b;
  request_line = λ t. line;
  wire = λ r. r;
  read_reply = λ r. some r;
  read_back = λ r. refl;
  readable = refl;
  is_text = refl;
  short = omega arith;
  split = λ b. codes "{reb" ∷ (codes "oot}" ++ 10 ∷ []) ∷ [];
  pieces = codes "{reb" ∷ [];
  last = codes "oot}";
  split_lem = refl;
  in_order = refl;
  are_pieces = ((refl, omega arith), tt);
}

abbrev exits_well : List Request → Exec
exits_well t = exited (pos 0) [] []

-- The command ends well after ten seconds, or after eleven minutes.
abbrev soon : List Request → ℕ
soon t = 10

abbrev late : List Request → ℕ
late t = 660

post-daemon_example :
    post link.request_line link.read_reply (daemon link exits_well late) reboot true [] ≡ (
      if leb (late (told link exits_well late [])) 600
      then conclude reboot (reply link exits_well late []) ([] ++ effects link exits_well late [])
      else (err request_failed, [] ++ effects link exits_well late []))
post-daemon_example = post-daemon link exits_well late true []

succeeds :
    (post link.request_line link.read_reply (daemon link exits_well soon) reboot true []).0
    ≡ ok (label reboot, succeeded)
unfolding conclude reply report strip
succeeds = ap (λ r. r.0) (post-daemon link exits_well soon true [])

gives_up :
    (post link.request_line link.read_reply (daemon link exits_well late) reboot true []).0
    ≡ err request_failed
gives_up = ap (λ r. r.0) (post-daemon link exits_well late true [])

-- The reply of a daemon that is not installed.
not_there :
    post {Req = Request} {Wire = Response} link.request_line link.read_reply
      (λ b. pure missing)
      reboot
      true
      []
    ≡ (err not_installed, [])
unfolding post
not_there = refl
