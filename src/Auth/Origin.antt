-- ===== src/Auth/Origin.antt =====
-- The same-origin check of core/middleware.py against requests that a browser makes.
use mathlib.Core.List.{append-nil}
use media_stack.Auth.Defs.{
  Request, allowed_hosts, bad_host, bad_loopback, bad_origin, header, is_empty, is_local_name,
  is_loopback, loopback_ips, mutating, origin_host, passed, verify_same_origin,
}
use media_stack.Common.{
  Bool, Option, Text, [], after_from, ap, arith, before, codes, false, if◌then◌else◌, inl, inr,
  mem_text, not, refl, some, sym, true, ℕ, ◌&&◌, ◌++◌, ◌==◌, ◌↔◌, ◌∷◌, ◌≡◌, ◌≢◌, ◌⊎◌,
}

-- The character does not occur in the text.
unfoldable pub lacks : ℕ → Text → Bool
lacks c [] = true
lacks c (a ∷ t) = not (a == c) && lacks c t

before_lem : (c : ℕ) (h t : Text) → lacks c h ≡ true → before c (h ++ c ∷ t) ≡ h
unfolding before lacks
before_lem c [] t e = ground arith
before_lem c (a ∷ h) t e = ground (arith, before_lem c h t)

before_all : (c : ℕ) (h : Text) → lacks c h ≡ true → before c h ≡ h
unfolding before lacks
before_all c [] e = refl
before_all c (a ∷ h) e = ground (arith, before_all c h)

lacks-append : (c : ℕ) (s t : Text) → lacks c (s ++ t) ≡ (lacks c s && lacks c t)
unfolding lacks
lacks-append c [] t = refl
lacks-append c (a ∷ s) t = ground (arith, lacks-append c s t)

after_from_lem :
    (scheme t whole : Text)
    → lacks b':' scheme ≡ true
    → after_from (codes "://") 3 (scheme ++ codes "://" ++ t) whole ≡ t
unfolding after_from lacks
after_from_lem [] t whole e = refl
after_from_lem (a ∷ scheme) t whole e = ground (arith, after_from_lem scheme t whole)

-- What may follow the host in an origin: nothing, a port, or a path.
abbrev pub IsTail : Text → Type 0
IsTail [] = Unit
IsTail (c ∷ t) = (c ≡ b':') ⊎ (c ≡ b'/')

before-skip :
    (h tail : Text)
    → lacks b':' h ≡ true
    → before b':' (h ++ b'/' ∷ tail) ≡ h ++ b'/' ∷ before b':' tail
unfolding before lacks
before-skip [] tail e = refl
before-skip (a ∷ h) tail e = ground (arith, before-skip h tail)

-- A host has neither a colon nor a slash.
abbrev pub IsHostName : Text → Type 0
IsHostName h = (lacks b':' h ≡ true) × (lacks b'/' h ≡ true)

host_of : (h tail : Text) → IsHostName h → IsTail tail → before b'/' (before b':' (h ++ tail)) ≡ h
unfolding lacks
host_of h [] name t = rw (append-nil h) (rw (before_all b':' h name.0) (before_all b'/' h name.1))
host_of h (c ∷ tail) name (inl e) =
    rw e (rw (before_lem b':' h tail name.0) (before_all b'/' h name.1))
host_of h (c ∷ tail) name (inr e) = rw (e, before-skip h tail name.0) (before_lem b'/' h _ name.1)

-- The check reads the host of an origin as a browser writes it, with or without a port or a path.
pub origin_host_lem :
    (scheme h tail : Text)
    → lacks b':' scheme ≡ true
    → IsHostName h
    → IsTail tail
    → origin_host (scheme ++ codes "://" ++ (h ++ tail)) ≡ h
unfolding origin_host
origin_host_lem scheme h tail plain name t =
    rw (after_from_lem scheme (h ++ tail) (scheme ++ codes "://" ++ (h ++ tail)) plain)
      (host_of h tail name t)

not-empty : (scheme rest : Text) → is_empty (scheme ++ codes "://" ++ rest) ≡ false
not-empty [] rest = refl
not-empty (a ∷ scheme) rest = refl

verdict_iff :
    (named local near bare same : Bool)
    → ((if not named
          then bad_host
          else if local && not near
          then bad_loopback
          else if bare
          then passed
          else if same
          then passed
          else bad_origin)
        ≡ passed)
      ↔ ((named ≡ true) × (local ≡ true → near ≡ true) × (bare ≡ false → same ≡ true))
verdict_iff named local near bare same = (λ h. ground arith, λ h. ground arith)

-- Exactly these requests that change something are passed on: the Host header names an allowed
-- host, one that says it is local comes from a loopback address, and an origin, if there is one,
-- is an allowed host.
passed_iff :
    (host_ip gateway : Option Text) (r : Request)
    → mem_text r.method mutating ≡ true
    → (verify_same_origin host_ip gateway r ≡ passed) ↔ (
        (mem_text (before b':' (header r.host)) (allowed_hosts host_ip) ≡ true)
        × (is_local_name (before b':' (header r.host)) ≡ true
            → is_loopback r.remote_addr (loopback_ips gateway) ≡ true)
        × (is_empty (header r.origin) ≡ false
            → mem_text (origin_host (header r.origin)) (allowed_hosts host_ip) ≡ true))
unfolding verify_same_origin
passed_iff host_ip gateway r changes = rw changes (
    verdict_iff (mem_text (before b':' (header r.host)) (allowed_hosts host_ip))
      (is_local_name (before b':' (header r.host)))
      (is_loopback r.remote_addr (loopback_ips gateway)) (is_empty (header r.origin))
      (mem_text (origin_host (header r.origin)) (allowed_hosts host_ip)))

-- A request that changes something and that a page of another host makes is never passed on,
-- whatever its Host header and its address: `h` is the host of its origin.
pub cross_origin-ne-passed :
    (host_ip gateway : Option Text) (r : Request) (scheme h tail : Text)
    → mem_text r.method mutating ≡ true
    → r.origin ≡ some (scheme ++ codes "://" ++ (h ++ tail))
    → lacks b':' scheme ≡ true
    → IsHostName h
    → IsTail tail
    → mem_text h (allowed_hosts host_ip) ≡ false
    → verify_same_origin host_ip gateway r ≢ passed
unfolding verify_same_origin
cross_origin-ne-passed host_ip gateway r scheme h tail changes from plain name t foreign p =
    let full : Text = scheme ++ codes "://" ++ (h ++ tail) in
    let allowed : is_empty full ≡ false
        → mem_text (origin_host full) (allowed_hosts host_ip) ≡ true =
      rw from at (((passed_iff host_ip gateway r changes).0 p).2) in
    cc (
      sym (allowed (not-empty scheme (h ++ tail))),
      ap (λ o. mem_text o (allowed_hosts host_ip)) (origin_host_lem scheme h tail plain name t),
      foreign,
    )
