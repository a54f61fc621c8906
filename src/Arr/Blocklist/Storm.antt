-- ===== src/Arr/Blocklist/Storm.antt =====
-- The storm brake of core/arr_client.py: `disable_autoredownload_if_storm`.
use media_stack.Common.{
  Bool, Bool-cases, List, Option, [], arith, false, if◌then◌else◌, inl, inr, ltb, ltb→lt, none, not,
  refl, some, true, ℕ, ◌++◌, ◌<◌, ◌∷◌, ◌≡◌, ◌≤◌, ◌⊎◌,
}
use media_stack.Common.Run.{Ends, Ends-mono, pure}
use media_stack.Arr.Api.{
  App, Body, ClientConfig, Error, Request, Servers, get_client_config, given, is_success,
  missing_id, put_client_config, unavailable, unreadable, unreadable_reply,
}
use media_stack.Arr.Blocklist.{disable_autoredownload_if_storm, switch_off, write_config}

module _ (srv : Servers) (app : App) (count threshold : ℕ) (t : List Request) where
  -- After the read of the setting.
  abbrev pub asked : List Request
  asked = t ++ get_client_config app ∷ []

  -- The setting as it is written back.
  abbrev pub switched : ClientConfig → ClientConfig
  switched c = record c { auto_redownload_failed = false }

  -- How a call that is over the threshold returns, by what the server answered to the read.
  abbrev pub StormRead : Body ClientConfig → Bool → List Request → Type 0
  StormRead unavailable b u = (b ≡ false) × (u ≡ asked)
  StormRead unreadable b u = ⊥
  StormRead (given c) b u =
      ((c.auto_redownload_failed ≡ false) × (b ≡ false) × (u ≡ asked))
      ⊎ ((c.auto_redownload_failed ≡ true)
          × (b ≡ is_success (srv.put_reply app asked))
          × (u ≡ asked ++ put_client_config app (switched c) ∷ []))

  abbrev pub StormEnd : Bool → List Request → Type 0
  StormEnd b u =
      ((count < threshold) × (b ≡ false) × (u ≡ t))
      ⊎ ((threshold ≤ count) × StormRead (srv.client_config app t) b u)

  -- What it raises, by what the server answered to the read.
  abbrev pub StormFault : Body ClientConfig → Error → Type 0
  StormFault unavailable e = ⊥
  StormFault unreadable e = e ≡ unreadable_reply
  StormFault (given c) e = (e ≡ missing_id) × (c.auto_redownload_failed ≡ true) × (c.id ≡ none)

  abbrev pub StormRaise : Error → List Request → Type 0
  StormRaise e u = (threshold ≤ count) × (u ≡ asked) × StormFault (srv.client_config app t) e

  write_config_lem :
      (c : ClientConfig) (o : Option ℕ)
      → c.id ≡ o
      → c.auto_redownload_failed ≡ true
      → Ends
          (write_config srv app o c)
          (StormRead (given c))
          (λ e u. (u ≡ asked) × StormFault (given c) e)
          asked
  unfolding write_config
  write_config_lem c none i on = (refl, (refl, on, i))
  write_config_lem c (some n) i on = inr (on, refl, refl)

  guarded_lem :
      (c : ClientConfig) (on : Bool)
      → c.auto_redownload_failed ≡ on
      → Ends
          (if not on then pure false else write_config srv app c.id c)
          (StormRead (given c))
          (λ e u. (u ≡ asked) × StormFault (given c) e)
          asked
  guarded_lem c true e = write_config_lem c c.id refl e
  guarded_lem c false e = inl (e, refl, refl)

  switch_off_lem :
      (body : Body ClientConfig)
      → Ends
          (switch_off srv app body)
          (StormRead body)
          (λ e u. (u ≡ asked) × StormFault body e)
          asked
  unfolding switch_off
  switch_off_lem unavailable = (refl, refl)
  switch_off_lem unreadable = (refl, refl)
  switch_off_lem (given c) = guarded_lem c c.auto_redownload_failed refl

  -- Below the threshold the call sends nothing and returns false. From the threshold on it reads the
  -- setting: where that read fails, or the setting read is off, it returns false and sends no more;
  -- where the setting read is on, it writes it back with only that switched off, and returns whether
  -- the write succeeded. It raises only after the read, for an answer that is no JSON object, or for
  -- a setting that is on and has no id, and then nothing was written.
  pub disable_autoredownload_if_storm_lem :
      Ends (disable_autoredownload_if_storm srv app count threshold) StormEnd StormRaise t
  unfolding disable_autoredownload_if_storm
  disable_autoredownload_if_storm_lem = elim (Bool-cases (ltb count threshold)) [
    | inl e ↦ rw e (inl (ltb→lt count threshold e, refl, refl))
    | inr e ↦
        let many : threshold ≤ count = ground (arith, e) in
        rw e (
          Ends-mono (StormRead (srv.client_config app t)) StormEnd
            (λ x u. (u ≡ asked) × StormFault (srv.client_config app t) x) StormRaise
            (switch_off srv app (srv.client_config app t)) asked
            (switch_off_lem (srv.client_config app t)) (λ b u h. inr (many, h))
            (λ x u h. (many, h.0, h.1)))
  ]
