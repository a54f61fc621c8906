-- ===== src/Badfiles/Verdict.antt =====
-- When scripts/checkrr-badfiles-report.py calls a file healthy or dead.
use mathlib.Core.Option.{some-injective}
use media_stack.Common.{
  Bool, Bool-cases, List, Text, [], all_of, any_of, ap, arith, drop_text, false, if◌then◌else◌, inl,
  inr, leb, mem_text, not, refl, some, starts_with, suc, sym, take_text, text_eq, text_eq_sound,
  true, zero, ℕ, ◌&&◌, ◌+◌, ◌-◌, ◌==◌, ◌∙◌, ◌∷◌, ◌≡◌, ◌≤◌,
}
use media_stack.Badfiles.{
  Found, by_signature, container_to_host, dead, head, healthy, is_zeroed, non_media_exts,
  signature_of, signatures, unprobeable_exts, verify_bytes, verify_file, verify_found, verify_host,
}

-- A property of all entries of the table holds of the one that is found, under its extension.
signature_of-holds :
    (p : Text × ℕ × Text → Bool) (ext : Text) (table : List (Text × ℕ × Text)) (s : ℕ × Text)
    → all_of p table ≡ true
    → signature_of ext table ≡ some s
    → p (ext, s.0, s.1) ≡ true
unfolding signature_of all_of
signature_of-holds p ext [] s h k = cc
signature_of-holds p ext (e ∷ table) s h k = elim (Bool-cases (text_eq e.0 ext)) [
  | inl same ↦
      let found : (e.1, e.2) ≡ s = some-injective (e.1, e.2) s (rw same at k) in
      rw (sym (text_eq_sound e.0 ext same), sym found) (ground (arith, h))
  | inr other ↦ signature_of-holds p ext table s (ground (arith, h)) (rw other at k)
]

-- Not all of the signature's bytes that a zeroed header would cover are zero.
is_solid : Text × ℕ × Text → Bool
is_solid s = any_of (λ b. not (b == 0)) (take_text (8 - s.1) s.2) && leb s.1 8

is_media : Text × ℕ × Text → Bool
is_media s = not (mem_text s.0 non_media_exts) && not (mem_text s.0 unprobeable_exts)

all_solid : all_of is_solid signatures ≡ true
unfolding all_of is_solid any_of take_text
all_solid = refl

all_media : all_of is_media signatures ≡ true
unfolding all_of is_media mem_text text_eq
all_media = refl

is_zero : ℕ → Bool
is_zero b = b == 0

take_nil : (m : ℕ) → take_text m [] ≡ []
unfolding take_text
take_nil zero = refl
take_nil (suc m) = refl

zero_drop :
    (n m k : ℕ) (t : Text)
    → m + n ≡ k
    → all_of is_zero (take_text k t) ≡ true
    → all_of is_zero (take_text m (drop_text n t)) ≡ true
unfolding all_of take_text drop_text is_zero
zero_drop zero m k t e h = let e' : m ≡ k = omega arith in rw e' h
zero_drop (suc n) m k [] e h = rw (take_nil m) refl
zero_drop (suc n) m zero (c ∷ t) e h = absurd (omega arith)
zero_drop (suc n) m (suc k) (c ∷ t) e h = zero_drop n m k t (omega arith) (ground (arith, h))

zero_magic :
    (n : ℕ) (t magic : Text)
    → all_of is_zero (take_text n t) ≡ true
    → starts_with t magic ≡ true
    → any_of (λ b. not (b == 0)) (take_text n magic) ≡ false
unfolding all_of any_of take_text starts_with is_zero
zero_magic zero t magic h k = refl
zero_magic (suc n) t [] h k = refl
zero_magic (suc n) [] (m ∷ magic) h k = cc
zero_magic (suc n) (c ∷ t) (m ∷ magic) h k = ground (arith, zero_magic n t magic)

-- Where the first eight bytes are zero, no signature matches.
zeros_mismatch :
    (s : Text × ℕ × Text) (bytes : Text)
    → is_solid s ≡ true
    → all_of is_zero (take_text 8 bytes) ≡ true
    → starts_with (drop_text s.1 bytes) s.2 ≡ false
unfolding is_solid
zeros_mismatch s bytes h k = elim (Bool-cases (starts_with (drop_text s.1 bytes) s.2)) [
  | inr no_match ↦ no_match
  | inl match ↦
      let offset : s.1 ≤ 8 = ground (arith, h) in
      let zeros = zero_drop s.1 (8 - s.1) 8 bytes (omega arith) k in
      let none_solid = zero_magic (8 - s.1) (drop_text s.1 bytes) s.2 zeros match in
      ground (arith, h, none_solid)
]

zeroed_bytes : (c : ℕ) (t : Text) → is_zeroed (c ∷ t) ≡ all_of is_zero (take_text 8 (c ∷ t))
unfolding is_zeroed is_zero
zeroed_bytes c t = refl

by_signature_lem :
    (s : ℕ × Text) (bytes : Text)
    → (by_signature (some s) bytes).0
      ≡ (if starts_with (drop_text s.0 bytes) s.1 then healthy else dead)
unfolding by_signature
by_signature_lem (offset, magic) bytes =
    elim (Bool-cases (starts_with (drop_text offset bytes) magic)) [
      | inl e ↦ rw e refl
      | inr e ↦ rw e refl
    ]

empty_zeros : all_of is_zero (take_text 8 []) ≡ true
unfolding all_of take_text
empty_zeros = refl

verify_bytes_lem :
    (ext : Text) (s : ℕ × Text) (bytes : Text)
    → is_solid (ext, s.0, s.1) ≡ true
    → signature_of ext signatures ≡ some s
    → (verify_bytes ext bytes).0 ≡ (if starts_with (drop_text s.0 bytes) s.1 then healthy else dead)
unfolding verify_bytes
verify_bytes_lem ext s [] solid signed =
    rw (zeros_mismatch (ext, s.0, s.1) [] solid empty_zeros) refl
verify_bytes_lem ext s (c ∷ t) solid signed = elim (Bool-cases (is_zeroed (c ∷ t))) [
  | inl z ↦
      rw z (rw (zeros_mismatch (ext, s.0, s.1) (c ∷ t) solid (sym (zeroed_bytes c t) ∙ z)) refl)
  | inr z ↦ rw z (rw signed (by_signature_lem s (c ∷ t)))
]

verify_media :
    (ext_of : Text → Text) (join : Text → Text → Text) (look : Text → Found) (path : Text)
    → mem_text (ext_of path) non_media_exts ≡ false
    → mem_text (ext_of path) unprobeable_exts ≡ false
    → verify_file ext_of join look path
      ≡ verify_host (ext_of path) look (container_to_host join path)
unfolding verify_file
verify_media ext_of join look path h k = rw (h, k) refl

-- A file in a known library that can be read, with an extension of the table, is healthy exactly
-- when its first 16 bytes carry the extension's signature, and dead otherwise: the tests for an
-- empty file and for a zeroed header never overrule a matching signature, and no extension of the
-- table is set aside as unprobeable or not media.
pub verify_file_lem :
    (ext_of : Text → Text) (join : Text → Text → Text) (look : Text → Found) (path host : Text)
    (offset : ℕ) (magic bytes : Text)
    → container_to_host join path ≡ some host
    → look host ≡ head bytes
    → signature_of (ext_of path) signatures ≡ some (offset, magic)
    → (verify_file ext_of join look path).0
      ≡ (if starts_with (drop_text offset bytes) magic then healthy else dead)
unfolding is_media verify_found verify_bytes verify_host
verify_file_lem ext_of join look path host offset magic bytes known found signed =
    let media =
      signature_of-holds is_media (ext_of path) signatures (offset, magic) all_media signed in
    let solid =
      signature_of-holds is_solid (ext_of path) signatures (offset, magic) all_solid signed in
    let plain =
      verify_media ext_of join look path (ground (arith, media)) (ground (arith, media)) in
    ap (λ v. v.0) plain
    ∙ ap (λ o. (verify_host (ext_of path) look o).0) known
    ∙ ap (λ f. (verify_found (ext_of path) f).0) found
    ∙ verify_bytes_lem (ext_of path) (offset, magic) bytes solid signed
