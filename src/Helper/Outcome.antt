-- ===== src/Helper/Outcome.antt =====
-- What a reply of scripts/host-helper/helper.py says, described from the request and from what the
-- command did.
use mathlib.Core.Bool.{false≢true}
use media_stack.Common.{
  Bool, Bool-cases, Option, Text, [], ap, arith, codes, drop_text, false, if◌then◌else◌, inl, inr,
  length, length-append, lookup, ltb, ltb→lt, negsuc, none, pos, refl, some, strip, suc, sym, true,
  zero, ℕ, ℤ, ◌++◌, ◌+◌, ◌-◌, ◌<◌, ◌∙◌, ◌∷◌, ◌≡◌, ◌≤◌, ◌⊎◌,
}
use media_stack.Helper.{
  Exec, Message, Payload, Response, Value, Verb, exited, expired, failed, failed_to_start, is_zero,
  last_chars, malformed, malformed_json, message_of, must_be_object, must_include_action,
  not_object, object, os_error, output, refusal, report, succeeded, text, timed_out, unknown_action,
  verbs,
}

-- The message shows the end of what was printed, 4000 characters of it or else all; or a word, if
-- nothing was printed.
abbrev pub Says : Text → Message → Message → Type 0
Says printed word m =
    ((printed ≡ []) × (m ≡ word))
    ⊎ ((0 < length printed)
        × ((before : Text) × (kept : Text) × (printed ≡ before ++ kept)
            × (m ≡ output kept)
            × (length kept ≤ 4000)
            × ((before ≡ []) ⊎ (length kept ≡ 4000))))

-- The reply to a verb whose command did this.
abbrev pub RanAs : Text → Verb → Exec → Response → Type 0
RanAs action verb expired r =
    (r.ok ≡ false) × (r.message ≡ timed_out action verb.timeout) × (r.returncode ≡ none)
RanAs action verb (os_error e) r =
    (r.ok ≡ false) × (r.message ≡ failed_to_start action e) × (r.returncode ≡ none)
RanAs action verb (exited code out errors) r =
    (r.returncode ≡ some code)
    × (((code ≡ pos 0) × (r.ok ≡ true) × Says (strip (out ++ errors)) succeeded r.message)
        ⊎ (¬ (code ≡ pos 0) × (r.ok ≡ false) × Says (strip (out ++ errors)) failed r.message))

-- The answer to an action, by its verb, with the action to log.
abbrev pub AnswersVerb : Text → Option Verb → Exec → Response × Option Text → Type 0
AnswersVerb action none x answered = answered ≡ (refusal (unknown_action action), some action)
AnswersVerb action (some verb) x answered =
    RanAs action verb x answered.0 × (answered.1 ≡ some action)

abbrev pub AnswersAction : Option Value → Exec → Response × Option Text → Type 0
AnswersAction (some (text action)) x answered = AnswersVerb action (lookup action verbs) x answered
AnswersAction _ x answered = answered ≡ (refusal must_include_action, none)

abbrev pub AnswersPayload : Payload → Exec → Response × Option Text → Type 0
AnswersPayload malformed x answered = answered ≡ (refusal malformed_json, none)
AnswersPayload not_object x answered = answered ≡ (refusal must_be_object, none)
AnswersPayload (object fields) x answered =
    AnswersAction (lookup (codes "action") fields) x answered

split_at :
    (n : ℕ) (t : Text)
    → n ≤ length t
    → (before : Text) × (t ≡ before ++ drop_text n t) × (length before ≡ n)
unfolding drop_text
split_at zero t h = ([], refl, refl)
split_at (suc n) [] h = let no : ⊥ = omega arith in absurd no
split_at (suc n) (c ∷ t) h =
    let k = split_at n t (omega arith) in (c ∷ k.0, ap (λ x. c ∷ x) k.1, ap suc k.2)

is_empty : (t : Text) → length t ≡ 0 → t ≡ []
is_empty [] h = refl
is_empty (c ∷ t) h = let no : ⊥ = omega arith in absurd no

last_chars_lem :
    (n : ℕ) (t : Text)
    → (before : Text) × (t ≡ before ++ last_chars n t)
      × (length (last_chars n t) ≤ n)
      × ((before ≡ []) ⊎ (length (last_chars n t) ≡ n))
last_chars_lem n t =
    let k = split_at (length t - n) t (omega arith) in
    let all : length t ≡ length k.0 + length (last_chars n t) =
      ap (λ x. length x) k.1 ∙ length-append {0} k.0 (last_chars n t) in
    (
      k.0,
      k.1,
      omega (arith, k.2, all),
      elim (Bool-cases (ltb n (length t))) [
        | inl e ↦ inr (omega (arith, k.2, all, ltb→lt n (length t) e))
        | inr e ↦
            let short : length t ≤ n = ground (arith, e) in
            inl (is_empty k.0 (omega (arith, k.2, short)))
      ],
    )

message_of-Says :
    (t : Text) (good : Bool) → Says t (if good then succeeded else failed) (message_of t good)
message_of-Says [] true = inl (refl, refl)
message_of-Says [] false = inl (refl, refl)
message_of-Says (c ∷ t) good =
    let k = last_chars_lem 4000 (c ∷ t) in
    inr (omega arith, (k.0, last_chars 4000 (c ∷ t), k.1, refl, k.2, k.3))

is_zero_lem : (code : ℤ) → is_zero code ≡ true → code ≡ pos 0
is_zero_lem (pos n) h = ap pos (ground (arith, h))
is_zero_lem (negsuc n) h = absurd (false≢true h)

exited_lem :
    (code : ℤ) (printed : Text) (good : Bool)
    → is_zero code ≡ good
    → ((code ≡ pos 0) × (good ≡ true) × Says printed succeeded (message_of printed good))
      ⊎ (¬ (code ≡ pos 0) × (good ≡ false) × Says printed failed (message_of printed good))
exited_lem code printed true h = inl (is_zero_lem code h, refl, message_of-Says printed true)
exited_lem code printed false h =
    inr (λ e. false≢true (sym h ∙ ap is_zero e), refl, message_of-Says printed false)

pub report-RanAs :
    (action : Text) (verb : Verb) (x : Exec) → RanAs action verb x (report action verb x)
unfolding report
report-RanAs action verb expired = (refl, refl, refl)
report-RanAs action verb (os_error e) = (refl, refl, refl)
report-RanAs action verb (exited code out errors) =
    (refl, exited_lem code (strip (out ++ errors)) (is_zero code) refl)
