-- ===== src/Helper/Examples.antt =====
-- The host-action daemon on concrete requests.
use media_stack.Common.{
  Bool, List, Option, Text, [], arith, codes, false, if◌then◌else◌, none, pos, refl, some, strip,
  text_eq, true, ◌++◌, ◌==◌, ◌∷◌, ◌≡◌,
}
use media_stack.Common.Run.{done, ok}
use media_stack.Helper.{
  Bytes, Exec, Payload, Request, Response, close, exited, log, malformed, object, recv_loop,
  refusal, run, sendall, serve, serve_one, succeeded, text, unknown_action,
}
use media_stack.Helper.Answer.{Answers, asked, commands, ending, serve_one_lem}
use media_stack.Helper.Closed.{AllFixed, serve-AllFixed, start-AllFixed}
use media_stack.Helper.Framing.{has_newline, joined, recv_loop-joined}

-- A parser that reads a text "!v" as an object whose action is "v", and refuses the rest.
abbrev tiny_loads : Text → Payload
tiny_loads [] = malformed
tiny_loads (c ∷ t) = if c == b'!' then object ((codes "action", text t) ∷ []) else malformed

abbrev ascii : Bytes → Text
ascii b = b

abbrev exits_well : List Request → Exec
exits_well t = exited (pos 0) [] []

abbrev listens : List Request → Bool
listens t = true

abbrev reboot_line : Bytes
reboot_line = codes "!reboot" ++ 10 ∷ []

abbrev other_line : Bytes
other_line = codes "!rm -rf" ++ 10 ∷ []

-- A known verb is run once; the reply carries its exit code.
reboots : serve_one tiny_loads ascii exits_well listens (reboot_line ∷ []) [] ≡ (
  ok done,
  run (codes "systemctl" ∷ codes "reboot" ∷ []) 60
      ∷ log (some (codes "reboot")) true (some (pos 0))
      ∷ sendall (record { ok = true; message = succeeded; returncode = some (pos 0) })
      ∷ close
      ∷ [],
)
unfolding serve_one strip text_eq
reboots = refl

-- An unknown one runs nothing.
refuses :
    (serve_one tiny_loads ascii exits_well listens (other_line ∷ []) []).1
    ≡ log (some (codes "rm -rf")) false none
      ∷ sendall (refusal (unknown_action (codes "rm -rf")))
      ∷ close
      ∷ []
unfolding serve_one strip text_eq
refuses = refl

serve-AllFixed_example :
    AllFixed
      (serve tiny_loads ascii exits_well listens ((reboot_line ∷ []) ∷ (other_line ∷ []) ∷ []) []).1
serve-AllFixed_example =
    serve-AllFixed tiny_loads ascii exits_well listens ((reboot_line ∷ []) ∷ (other_line ∷ []) ∷ [])
      [] start-AllFixed

serve_one_lem_example :
    (answered : Response × Option Text) × Answers tiny_loads ascii
      (recv_loop [] (reboot_line ∷ []))
      (exits_well [])
      answered
    × ((serve_one tiny_loads ascii exits_well listens (reboot_line ∷ []) []).1
        ≡ []
          ++ commands (asked tiny_loads ascii (recv_loop [] (reboot_line ∷ [])))
          ++ ending tiny_loads ascii exits_well listens answered)
serve_one_lem_example = serve_one_lem tiny_loads ascii exits_well listens (reboot_line ∷ []) []

recv_loop-joined_example :
    recv_loop [] (codes "!re" ∷ (codes "boot" ++ 10 ∷ []) ∷ []) ≡ some reboot_line
unfolding has_newline joined
recv_loop-joined_example =
    recv_loop-joined (codes "!re" ∷ []) (codes "boot") [] ((refl, omega arith), tt) (omega arith)
