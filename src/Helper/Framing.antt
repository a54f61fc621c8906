-- ===== src/Helper/Framing.antt =====
-- How the host-action daemon reads a request and answers it.
use mathlib.Core.List.{append_assoc}
use media_stack.Common.{
  All, Bool, Bool-cases, List, Option, [], ap, arith, false, inl, inr, length, length-append, ltb,
  none, refl, some, sym, true, ◌++◌, ◌==◌, ◌||◌, ◌∙◌, ◌∷◌, ◌≡◌, ◌≤◌,
}
use media_stack.Helper.{Bytes, ends_with_newline, max_request_bytes, recv_loop}

unfoldable pub has_newline : Bytes → Bool
has_newline [] = false
has_newline (c ∷ t) = c == 10 || has_newline t

-- The bytes of the chunks, one after the other.
unfoldable pub joined : List Bytes → Bytes
joined [] = []
joined (chunk ∷ rest) = chunk ++ joined rest

-- A chunk that `recv` gives from the middle of a request.
abbrev pub IsPiece : Bytes → Type 0
IsPiece chunk = (has_newline chunk ≡ false) × (1 ≤ length chunk)

has_newline-append : (s t : Bytes) → has_newline (s ++ t) ≡ (has_newline s || has_newline t)
unfolding has_newline
has_newline-append [] t = refl
has_newline-append (c ∷ s) t = ground (arith, has_newline-append s t)

ends_with_newline-false : (t : Bytes) → has_newline t ≡ false → ends_with_newline t ≡ false
unfolding has_newline ends_with_newline
ends_with_newline-false [] h = refl
ends_with_newline-false (c ∷ []) h = ground arith
ends_with_newline-false (c ∷ d ∷ t) h = ends_with_newline-false (d ∷ t) (ground arith)

-- One turn of the loop that goes on.
recv_step :
    (received chunk : Bytes) (rest : List Bytes)
    → has_newline received ≡ false
    → 1 ≤ length chunk
    → length (received ++ chunk) ≤ 4096
    → recv_loop received (chunk ∷ rest) ≡ recv_loop (received ++ chunk) rest
unfolding recv_loop
recv_step received chunk rest h k l = ground (arith, ends_with_newline-false received h)

ends_with_newline-snoc : (t : Bytes) → ends_with_newline (t ++ 10 ∷ []) ≡ true
unfolding ends_with_newline
ends_with_newline-snoc [] = refl
ends_with_newline-snoc (c ∷ []) = refl
ends_with_newline-snoc (c ∷ d ∷ t) = ends_with_newline-snoc (d ∷ t)

recv_last :
    (received : Bytes) (rest : List Bytes)
    → ends_with_newline received ≡ true
    → recv_loop received rest ≡ some received
unfolding recv_loop
recv_last received [] h = refl
recv_last received (chunk ∷ rest) h = ground arith

recv_from :
    (received : Bytes) (pieces : List Bytes) (last : Bytes) (rest : List Bytes)
    → has_newline received ≡ false
    → All IsPiece pieces
    → length (received ++ (joined pieces ++ (last ++ 10 ∷ []))) ≤ 4096
    → recv_loop received (pieces ++ (last ++ 10 ∷ []) ∷ rest)
      ≡ some (received ++ (joined pieces ++ (last ++ 10 ∷ [])))
unfolding joined
recv_from received [] last rest h k l =
    recv_step received (last ++ 10 ∷ []) rest h (omega (arith, length-append last (10 ∷ []))) l
    ∙ recv_last (received ++ (last ++ 10 ∷ [])) rest (
        rw (sym (append_assoc received last (10 ∷ []))) (ends_with_newline-snoc (received ++ last)))
recv_from received (p ∷ pieces) last rest h k l =
    let tail = joined pieces ++ (last ++ 10 ∷ []) in
    let whole : received ++ (joined (p ∷ pieces) ++ (last ++ 10 ∷ [])) ≡ received ++ p ++ tail =
      ap (λ t. received ++ t) (append_assoc p (joined pieces) (last ++ 10 ∷ []))
      ∙ sym (append_assoc received p tail) in
    let bound : length (received ++ p ++ tail) ≤ 4096 = rw (sym whole) l in
    recv_step received p (pieces ++ (last ++ 10 ∷ []) ∷ rest) h k.0.1
      (omega (arith, bound, length-append (received ++ p) tail))
    ∙ recv_from (received ++ p) pieces last rest (has_newline-append received p ∙ (rw h k.0.0)) k.1
        bound
    ∙ ap some (sym whole)

-- A request of at most 4096 bytes that ends with its newline is received whole, and nothing after
-- it is read, however the stream splits it: into pieces that are not empty and hold no newline, and
-- a last one whose last byte is a newline.
pub recv_loop-joined :
    (pieces : List Bytes) (last : Bytes) (rest : List Bytes)
    → All IsPiece pieces
    → length (joined pieces ++ (last ++ 10 ∷ [])) ≤ 4096
    → recv_loop [] (pieces ++ (last ++ 10 ∷ []) ∷ rest) ≡ some (joined pieces ++ (last ++ 10 ∷ []))
unfolding has_newline
recv_loop-joined pieces last rest = recv_from [] pieces last rest refl

OnReceived : Option Bytes → Type 0
OnReceived none = Unit
OnReceived (some received) = length received ≤ 4096

-- Whatever arrives, what is handed on has at most 4096 bytes.
recv_loop-bound :
    (received : Bytes) (chunks : List Bytes)
    → length received ≤ 4096
    → OnReceived (recv_loop received chunks)
unfolding recv_loop OnReceived
recv_loop-bound received [] h = h
recv_loop-bound received (chunk ∷ rest) h = elim (Bool-cases (ends_with_newline received)) [
  | inl e ↦ rw e h
  | inr e ↦ elim (Bool-cases (length chunk == 0)) [
    | inl z ↦ rw (e, z) h
    | inr z ↦ elim (Bool-cases (ltb max_request_bytes (length (received ++ chunk)))) [
      | inl b ↦ rw (e, z, b) tt
      | inr b ↦ rw (e, z, b) (recv_loop-bound (received ++ chunk) rest (ground (arith, b)))
    ]
  ]
]
