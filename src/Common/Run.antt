-- ===== src/Common/Run.antt =====
-- Effects. A program that talks to another process sends requests; what answers is a parameter,
-- a function of the requests sent so far. An action either returns or raises, and gives the
-- requests sent up to its end, the latest last.
use mathlib.Core.Path.{◌≡◌, sym, ap, subst}
use mathlib.Core.Option.{Option, none, some}
use mathlib.Core.List.{List, [], ◌∷◌, ◌++◌}

pub data Result {ℓ κ} (E : Type ℓ) (A : Type κ) : Type (ℓ ⊔ κ) where
  ok : A → Result E A
  err : E → Result E A

-- What a statement gives: None.
pub data Done : Type 0 where
  done : Done

abbrev pub Run {ℓ κ μ} : (Req : Type ℓ) (E : Type κ) (A : Type μ) → Type (ℓ ⊔ κ ⊔ μ)
Run Req E A = List Req → Result E A × List Req

module _ {ℓ κ μ} {Req : Type ℓ} {E : Type κ} {A : Type μ} where
  abbrev pub pure : A → Run Req E A
  pure a t = (ok a, t)

  abbrev pub raise : E → Run Req E A
  raise e t = (err e, t)

  -- Sends the request `q`; the answer may depend on what was sent before.
  abbrev pub call : (List Req → A) → Req → Run Req E A
  call answer q t = (ok (answer t), t ++ q ∷ [])

  -- `try: m` with a handler of what it raises.
  abbrev pub try_except : Run Req E A → (E → Run Req E A) → Run Req E A
  try_except m handler t = elim (m t).0 [ ok a ↦ (ok a, (m t).1) | err e ↦ handler e (m t).1 ]

infixl 5 ◌>>=◌
abbrev pub ◌>>=◌ {ℓ κ μ ν} :
    {Req : Type ℓ} {E : Type κ} {A : Type μ} {B : Type ν}
    → Run Req E A
    → (A → Run Req E B)
    → Run Req E B
◌>>=◌ m f t = elim (m t).0 [ ok a ↦ f a (m t).1 | err e ↦ (err e, (m t).1) ]

module _ {ℓ κ μ} {Req : Type ℓ} {E : Type κ} {A : Type μ} where
  -- The run returned, with a value and a list of requests that satisfy `P`.
  abbrev pub Returned : (A → List Req → Type 0) → Result E A → List Req → Type 0
  Returned P (ok a) t = P a t
  Returned P (err e) t = ⊥

  -- Started after the requests `t`, the action returns, and `P` holds at its end.
  abbrev pub Ensures : Run Req E A → (A → List Req → Type 0) → List Req → Type 0
  Ensures m P t = Returned P (m t).0 (m t).1

module _ {ℓ κ μ ν} {Req : Type ℓ} {E : Type κ} {A : Type μ} {B : Type ν} (P : A → List Req → Type 0)
    (Q : B → List Req → Type 0) where
  pub Ensures-bind :
      (m : Run Req E A) (f : A → Run Req E B) (t : List Req)
      → Ensures m P t
      → ((a : A) (u : List Req) → P a u → Ensures (f a) Q u)
      → Ensures (m >>= f) Q t
  Ensures-bind m f t h k = go (m t).0 h
    where
      go :
          (r : Result E A)
          → Returned P r (m t).1
          → (λ (z : Result E B × List Req). Returned Q z.0 z.1)
              (elim r as (λ z. Result E B × List Req) [
                | ok a ↦ f a (m t).1
                | err e ↦ (err e, (m t).1)
              ])
      go (ok a) p = k a (m t).1 p
      go (err e) p = absurd p

-- A bind whose first action is known to return.
pub Ensures-after {ℓ κ μ ν} :
    {Req : Type ℓ} {E : Type κ} {A : Type μ} {B : Type ν} (Q : B → List Req → Type 0)
    (m : Run Req E A) (f : A → Run Req E B) (t : List Req) {a : A} {u : List Req}
    → m t ≡ (ok a, u)
    → Ensures (f a) Q u
    → Ensures (m >>= f) Q t
Ensures-after {Req} {E} {A} {B} Q m f t e h =
    subst
      (λ (r : Result E A × List Req).
        (λ (z : Result E B × List Req). Returned Q z.0 z.1)
          (elim r.0 as (λ z. Result E B × List Req) [ ok a ↦ f a r.1 | err e ↦ (err e, r.1) ]))
      (sym e) h

pub Ensures-mono {ℓ κ μ} :
    {Req : Type ℓ} {E : Type κ} {A : Type μ} (P Q : A → List Req → Type 0) (m : Run Req E A)
    (t : List Req)
    → Ensures m P t
    → ((a : A) (u : List Req) → P a u → Q a u)
    → Ensures m Q t
Ensures-mono {Req} {E} {A} P Q m t h k = go (m t).0 (m t).1 h
  where
    go : (r : Result E A) (u : List Req) → Returned P r u → Returned Q r u
    go (ok a) u p = k a u p
    go (err e) u p = p

module _ {ℓ κ μ} {Req : Type ℓ} {E : Type κ} {A : Type μ} where
  -- The run returned with `P`, or raised with `R`.
  abbrev pub Ended :
      (A → List Req → Type 0) → (E → List Req → Type 0) → Result E A → List Req → Type 0
  Ended P R (ok a) t = P a t
  Ended P R (err e) t = R e t

  -- Started after the requests `t`, the action returns with `P`, or raises with `R`.
  abbrev pub Ends :
      Run Req E A → (A → List Req → Type 0) → (E → List Req → Type 0) → List Req → Type 0
  Ends m P R t = Ended P R (m t).0 (m t).1

  pub Ends-Ensures :
      (P : A → List Req → Type 0) (R : E → List Req → Type 0) (m : Run Req E A) (t : List Req)
      → Ensures m P t
      → Ends m P R t
  Ends-Ensures P R m t h = go (m t).0 (m t).1 h
    where
      go : (r : Result E A) (u : List Req) → Returned P r u → Ended P R r u
      go (ok a) u p = p
      go (err e) u p = absurd p

  pub Ends-mono :
      (P Q : A → List Req → Type 0) (R S : E → List Req → Type 0) (m : Run Req E A) (t : List Req)
      → Ends m P R t
      → ((a : A) (u : List Req) → P a u → Q a u)
      → ((e : E) (u : List Req) → R e u → S e u)
      → Ends m Q S t
  Ends-mono P Q R S m t h k l = go (m t).0 (m t).1 h
    where
      go : (r : Result E A) (u : List Req) → Ended P R r u → Ended Q S r u
      go (ok a) u p = k a u p
      go (err e) u p = l e u p

pub Ends-bind {ℓ κ μ ν} :
    {Req : Type ℓ} {E : Type κ} {A : Type μ} {B : Type ν} (P : A → List Req → Type 0)
    (Q : B → List Req → Type 0) (R : E → List Req → Type 0) (m : Run Req E A) (f : A → Run Req E B)
    (t : List Req)
    → Ends m P R t
    → ((a : A) (u : List Req) → P a u → Ends (f a) Q R u)
    → Ends (m >>= f) Q R t
Ends-bind {Req} {E} {A} {B} P Q R m f t h k = go (m t).0 (m t).1 h
  where
    go :
        (r : Result E A) (u : List Req)
        → Ended P R r u
        → (λ (z : Result E B × List Req). Ended Q R z.0 z.1)
            (elim r as (λ z. Result E B × List Req) [ ok a ↦ f a u | err e ↦ (err e, u) ])
    go (ok a) u p = k a u p
    go (err e) u p = p

-- However the action ends, it keeps a property of the requests sent.
abbrev pub Keeps {ℓ κ μ ν} :
    {Req : Type ℓ} {E : Type κ} {A : Type μ} → (List Req → Type ν) → Run Req E A → Type (ℓ ⊔ ν)
Keeps P m = (t : List _) → P t → P (m t).1

pub Keeps-bind {ℓ κ μ ν ξ} :
    {Req : Type ℓ} {E : Type κ} {A : Type μ} {B : Type ν} (P : List Req → Type ξ) (m : Run Req E A)
    (f : A → Run Req E B)
    → Keeps P m
    → ((a : A) → Keeps P (f a))
    → Keeps P (m >>= f)
Keeps-bind {Req} {E} {A} {B} P m f km kf t h = go (m t).0 (m t).1 (km t h)
  where
    go :
        (r : Result E A) (u : List Req)
        → P u
        → P (elim r as (λ z. Result E B × List Req) [ ok a ↦ f a u | err e ↦ (err e, u) ]).1
    go (ok a) u p = kf a u p
    go (err e) u p = p

-- What a call leads to, by cases on an answer that may be missing.
pub Keeps-option {ℓ κ μ ν ξ} :
    {Req : Type ℓ} {E : Type κ} {A : Type μ} {B : Type ν} (P : List Req → Type ξ)
    (absent : Run Req E B) (present : A → Run Req E B) (o : Option A)
    → Keeps P absent
    → ((a : A) → Keeps P (present a))
    → Keeps P (elim o as (λ z. Run Req E B) [ none ↦ absent | some a ↦ present a ])
Keeps-option P absent present none h k = h
Keeps-option P absent present (some a) h k = k a

-- A bind after an action whose end is known.
pub run-bind {ℓ κ μ ν} :
    {Req : Type ℓ} {E : Type κ} {A : Type μ} {B : Type ν} (m : Run Req E A) (f : A → Run Req E B)
    (t u : List Req) (a : A)
    → m t ≡ (ok a, u)
    → (m >>= f) t ≡ f a u
run-bind {Req} {E} {A} {B} m f t u a h =
    ap
      (λ (r : Result E A × List Req). elim r.0 as (λ z. Result E B × List Req) [
        | ok x ↦ f x r.1
        | err e ↦ (err e, r.1)
      ])
      h

-- A bind after an action that is known to raise.
pub run-raise {ℓ κ μ ν} :
    {Req : Type ℓ} {E : Type κ} {A : Type μ} {B : Type ν} (m : Run Req E A) (f : A → Run Req E B)
    (t u : List Req) (e : E)
    → m t ≡ (err e, u)
    → (m >>= f) t ≡ (err e, u)
run-raise {Req} {E} {A} {B} m f t u e h =
    ap
      (λ (r : Result E A × List Req). elim r.0 as (λ z. Result E B × List Req) [
        | ok x ↦ f x r.1
        | err e ↦ (err e, r.1)
      ])
      h
