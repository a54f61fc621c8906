-- ===== src/Reconcile/Sweep.antt =====
-- Which paths the sweep of scripts/plex-arr-reconcile.py finds.
use mathlib.Core.List.{append_assoc, append-nil}
use media_stack.Common.{
  Bool, Bool-cases, List, Text, [], all_of, ap, arith, false, inl, inr, keep, length, not, refl,
  sym, true, ℕ, ◌&&◌, ◌++◌, ◌==◌, ◌∙◌, ◌∷◌, ◌≡◌,
}
use media_stack.Reconcile.{
  exists_in_plex_container, is_break, join_lines, print_lines, read_loop, split_lines,
}

abbrev pub is_line : Text → Bool
is_line t = all_of (λ c. not (is_break c)) t

not_newline : (c : ℕ) → not (is_break c) ≡ true → (c == 10) ≡ false
not_newline c h = ground (arith, h)

read-newline :
    (l t line : Text)
    → is_line l ≡ true
    → read_loop (l ++ 10 ∷ t) line ≡ (line ++ l) ∷ read_loop t []
unfolding read_loop all_of
read-newline [] t line h = ap (λ x. x ∷ read_loop t []) (sym (append-nil line))
read-newline (c ∷ l) t line h =
    let plain : (c == 10) ≡ false = not_newline c (ground (arith, h)) in
    rw plain (
      read-newline l t (line ++ c ∷ []) (ground (arith, h))
      ∙ ap (λ x. x ∷ read_loop t []) (append_assoc line (c ∷ []) l))

read-rest : (l line : Text) → is_line l ≡ true → read_loop l line ≡ []
unfolding read_loop all_of
read-rest [] line h = refl
read-rest (c ∷ l) line h =
    let plain : (c == 10) ≡ false = not_newline c (ground (arith, h)) in
    rw plain (read-rest l (line ++ c ∷ []) (ground (arith, h)))

-- All but the last.
abbrev pub init : List Text → List Text
init [] = []
init (p ∷ []) = []
init (p ∷ q ∷ paths) = p ∷ init (q ∷ paths)

read-join_lines :
    (p : Text) (paths : List Text)
    → all_of is_line (p ∷ paths) ≡ true
    → read_loop (join_lines (p ∷ paths)) [] ≡ init (p ∷ paths)
unfolding all_of join_lines
read-join_lines p [] h = read-rest p [] (ground (arith, h))
read-join_lines p (q ∷ paths) h =
    read-newline p (join_lines (q ∷ paths)) [] (ground (arith, h))
    ∙ ap (λ x. p ∷ x) (read-join_lines q paths (ground (arith, h)))

split-newline :
    (l t line : Text)
    → is_line l ≡ true
    → split_lines (l ++ 10 ∷ t) line ≡ (line ++ l) ∷ split_lines t []
unfolding split_lines all_of
split-newline [] t line h = ap (λ x. x ∷ split_lines t []) (sym (append-nil line))
split-newline (c ∷ l) t line h =
    let plain : is_break c ≡ false = ground (arith, h) in
    rw plain (
      split-newline l t (line ++ c ∷ []) (ground (arith, h))
      ∙ ap (λ x. x ∷ split_lines t []) (append_assoc line (c ∷ []) l))

split-print_lines :
    (ls : List Text) → all_of is_line ls ≡ true → split_lines (print_lines ls) [] ≡ ls
unfolding all_of split_lines print_lines
split-print_lines [] h = refl
split-print_lines (l ∷ ls) h =
    split-newline l (print_lines ls) [] (ground (arith, h))
    ∙ ap (λ x. l ∷ x) (split-print_lines ls (ground (arith, h)))

all_of-keep :
    (p q : Text → Bool) (xs : List Text) → all_of p xs ≡ true → all_of p (keep q xs) ≡ true
unfolding all_of keep
all_of-keep p q [] h = refl
all_of-keep p q (x ∷ xs) h =
    let later : all_of p (keep q xs) ≡ true = all_of-keep p q xs (ground (arith, h)) in
    elim (Bool-cases (q x)) [ inl e ↦ rw e (ground (arith, h, later)) | inr e ↦ rw e later ]

all_of-init : (p : Text → Bool) (xs : List Text) → all_of p xs ≡ true → all_of p (init xs) ≡ true
unfolding all_of
all_of-init p [] h = refl
all_of-init p (x ∷ []) h = refl
all_of-init p (x ∷ y ∷ xs) h =
    let later : all_of p (init (y ∷ xs)) ≡ true = all_of-init p (y ∷ xs) (ground (arith, h)) in
    ground (arith, h, later)

keep-twice :
    {A : Type 0} (p q : A → Bool) (xs : List A) → keep p (keep q xs) ≡ keep (λ x. q x && p x) xs
unfolding keep
keep-twice p q [] = refl
keep-twice p q (x ∷ xs) = elim (Bool-cases (q x)) [
  | inr e ↦ rw e (keep-twice p q xs)
  | inl e ↦ rw e (elim (Bool-cases (p x)) [
    | inl k ↦ rw k (ap (λ ys. x ∷ ys) (keep-twice p q xs))
    | inr k ↦ rw k (keep-twice p q xs)
  ])
]

-- For paths without a line break of any kind, the sweep finds exactly those that exist and are not
-- empty, in order, except for the last one, which it never looks at: the shell's `read` drops a last
-- line that no newline ends.
pub exists_in_plex_container_lem :
    (exists : Text → Bool) (paths : List Text)
    → all_of is_line paths ≡ true
    → exists_in_plex_container exists paths
      ≡ keep (λ p. exists p && not (length p == 0)) (init paths)
unfolding exists_in_plex_container keep
exists_in_plex_container_lem exists [] h = refl
exists_in_plex_container_lem exists (p ∷ paths) h =
    let nonempty : Text → Bool = λ line. not (length line == 0) in
    let lines = all_of-keep is_line exists (init (p ∷ paths)) (all_of-init is_line (p ∷ paths) h) in
    ap (λ ls. keep nonempty (split_lines (print_lines (keep exists ls)) []))
      (read-join_lines p paths h)
    ∙ ap (keep nonempty) (split-print_lines (keep exists (init (p ∷ paths))) lines)
    ∙ keep-twice nonempty exists (init (p ∷ paths))
