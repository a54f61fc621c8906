-- ===== src/Catalog/Registry.antt =====
-- catalog/registry.py, and which host ports and names its entries claim.
use mathlib.Core.Option.{some-injective}
use media_stack.Common.{
  Bool, Bool-cases, List, Option, String, [], all_of, any_of, arith, eq_iff, false, if◌then◌else◌,
  inl, inr, map, none, not, refl, some, str_eq, sym, true, ℕ, ◌++◌, ◌==◌, ◌||◌, ◌∙◌, ◌∷◌, ◌≡◌,
}
use media_stack.Catalog.Entry.{Entry}
use media_stack.Catalog.Entries.Monitoring
use media_stack.Catalog.Entries.Notifications
use media_stack.Catalog.Entries.IndexerCompletion
use media_stack.Catalog.Entries.LibraryQuality
use media_stack.Catalog.Entries.HouseholdAccess
use media_stack.Catalog.Entries.DockerHost
use media_stack.Catalog.Entries.Security
use media_stack.Catalog.Entries.Media
use media_stack.Catalog.Entries.BrowserGames
use media_stack.Catalog.Entries.Retroarch

abbrev pub catalog_label : String
catalog_label = "media-stack.catalog"

abbrev pub network : String
network = "stacknet"

unfoldable pub catalog : List Entry
catalog =
    Monitoring.catalog ++ Notifications.catalog ++ IndexerCompletion.catalog
    ++ LibraryQuality.catalog ++ HouseholdAccess.catalog ++ DockerHost.catalog ++ Security.catalog
    ++ Media.catalog ++ BrowserGames.catalog ++ Retroarch.catalog

-- `CATALOG_BY_ID.get(catalog_id)`: of two entries with one id, a dict holds the later.
unfoldable pub by_id : String → List Entry → Option Entry
by_id cid [] = none
by_id cid (e ∷ rest) = elim (by_id cid rest) [
  | some later ↦ some later
  | none ↦ if str_eq e.id cid then some e else none
]

-- `entry["ports"].values()`
abbrev pub host_ports : Entry → List ℕ
host_ports e = map (λ p. p.1) e.ports

-- `n in numbers`
unfoldable pub mem_num : ℕ → List ℕ → Bool
mem_num n [] = false
mem_num n (x ∷ xs) = x == n || mem_num n xs

unfoldable pub shares_port : Entry → Entry → Bool
unfolding mem_num
shares_port a b = any_of (λ n. mem_num n (host_ports b)) (host_ports a)

unfoldable pub shares_volume : Entry → Entry → Bool
shares_volume a b = any_of (λ v. any_of (λ w. str_eq w.0 v.0) b.volumes) a.volumes

-- Two entries that claim one thing are the same program.
clash_free : Entry → Entry → Bool
unfolding shares_port shares_volume
clash_free a b = not (shares_port a b || shares_volume a b) || str_eq a.id b.id

all_clash_free : all_of (λ a. all_of (clash_free a) catalog) catalog ≡ true
unfolding catalog clash_free all_of any_of
all_clash_free = refl

-- What holds of every entry holds of the one that is found, and its id is the one asked for.
pub by_id-holds :
    (p : Entry → Bool) (cid : String) (es : List Entry) (e : Entry)
    → all_of p es ≡ true
    → by_id cid es ≡ some e
    → (p e ≡ true) × (e.id ≡ cid)
unfolding by_id all_of
by_id-holds p cid [] e h k = cc
by_id-holds p cid (a ∷ rest) e h k = go (by_id cid rest) refl k (by_id-holds p cid rest e)
  where
    tail : all_of p rest ≡ true
    tail = ground (arith, h)

    go :
        (o : Option Entry)
        → by_id cid rest ≡ o
        → elim o as (λ z. Option Entry) [
          | some later ↦ some later
          | none ↦ if str_eq a.id cid then some a else none
        ]
          ≡ some e
        → (all_of p rest ≡ true → by_id cid rest ≡ some e → (p e ≡ true) × (e.id ≡ cid))
        → (p e ≡ true) × (e.id ≡ cid)
    go (some later) q r holds = holds tail (q ∙ r)
    go none q r holds = elim (Bool-cases (str_eq a.id cid)) [
      | inl f ↦
          let same : a ≡ e = some-injective a e (rw f at r) in
          rw (sym same) (ground (arith, h), (eq_iff a.id cid).0 f)
      | inr f ↦ let clash = rw f at r in cc
    ]

-- Two different programs of the catalog claim no common host port and no common volume.
pub by_id-clash_free :
    (x y : String) (a b : Entry)
    → by_id x catalog ≡ some a
    → by_id y catalog ≡ some b
    → (shares_port a b || shares_volume a b) ≡ true
    → x ≡ y
unfolding clash_free
by_id-clash_free x y a b h k shared =
    let free = by_id-holds (λ c. all_of (clash_free c) catalog) x catalog a all_clash_free h in
    let pair = by_id-holds (clash_free a) y catalog b free.0 k in
    sym free.1 ∙ (eq_iff a.id b.id).0 (ground (arith, pair.0, shared)) ∙ pair.1
