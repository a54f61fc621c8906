-- ===== src/Starvation/Remedy.antt =====
-- When `check_all` of core/import_starvation.py changes anything, and for which applications.
use media_stack.Common.{
  All, All-append, List, Option, String, [], false, keep, map, none, not, option_map, some, sub_ℕ,
  ℕ, ◌&&◌, ◌++◌, ◌∷◌,
}
use media_stack.Common.Run.{Keeps, Keeps-bind, Run, pure, raise, ◌>>=◌}
use media_stack.Arr.Api.{
  App, Command, Error, Request, Servers, get_commands, get_newest, http_error, queue_arr_apps,
}
use media_stack.Starvation.{
  Cleared, Lag, Report, Starved, Verdict, check_all, check_apps, detect, event_grabbed,
  event_imported, first_date, get_all_commands, grab_import_lag, judge, lag_between, newest_event,
  refresh_starvation, round_seconds, starvation_of,
}
use media_stack.Starvation.Backlog.{IsRead}

AllRead : List Request → Type 0
AllRead t = All IsRead t

snoc-AllRead : (t : List Request) (q : Request) → IsRead q → AllRead t → AllRead (t ++ q ∷ [])
unfolding AllRead
snoc-AllRead t q r h = All-append IsRead t (q ∷ []) h (r, tt)

module _ (srv : Servers) where
  get_all_commands-Keeps : (app : App) → Keeps AllRead (get_all_commands srv app)
  unfolding get_all_commands
  get_all_commands-Keeps app t h =
      go (srv.commands app t) (t ++ get_commands app ∷ []) (snoc-AllRead t (get_commands app) tt h)
    where
      go :
          (o : Option (List Command)) (u : List Request)
          → AllRead u
          → AllRead
              (elim o as (λ z. Run Request Error (List Command)) [
                | none ↦ raise http_error
                | some cs ↦ pure cs
              ]
                u).1
      go none u all = all
      go (some cs) u all = all

  module _ (from_iso : String → Option ℕ) where
    newest_event-Keeps : (app : App) (n : ℕ) → Keeps AllRead (newest_event from_iso srv app n)
    unfolding newest_event
    newest_event-Keeps app n t h =
        go (srv.newest app n t) (t ++ get_newest app n ∷ [])
          (snoc-AllRead t (get_newest app n) tt h)
      where
        go :
            (o : Option (Option (Option String))) (u : List Request)
            → AllRead u
            → AllRead
                (elim o as (λ z. Run Request Error (Option ℕ)) [
                  | none ↦ raise http_error
                  | some first ↦ pure (first_date from_iso first)
                ]
                  u).1
        go none u all = all
        go (some first) u all = all

    grab_import_lag-Keeps :
        (app : App) (now : ℕ) → Keeps AllRead (grab_import_lag from_iso srv app now)
    unfolding grab_import_lag
    grab_import_lag-Keeps app now =
        Keeps-bind AllRead (newest_event from_iso srv app event_grabbed) after_grab
          (newest_event-Keeps app event_grabbed)
          λ grab.
            Keeps-bind AllRead (newest_event from_iso srv app event_imported) (report grab)
              (newest_event-Keeps app event_imported) (λ imported t h. h)
      where
        report : Option ℕ → Option ℕ → Run Request Error Lag
        report last_grab last_import = pure (record {
          last_grab = last_grab;
          last_import = last_import;
          lag_seconds = lag_between last_grab last_import;
          import_age_seconds = option_map (λ ts. round_seconds (sub_ℕ now ts)) last_import;
        })

        after_grab : Option ℕ → Run Request Error Lag
        after_grab grab = newest_event from_iso srv app event_imported >>= report grab

    refresh_starvation-Keeps :
        (app : App) (now : ℕ) → Keeps AllRead (refresh_starvation from_iso srv app now)
    unfolding refresh_starvation
    refresh_starvation-Keeps app now =
        Keeps-bind AllRead (get_all_commands srv app) report (get_all_commands-Keeps app)
          (λ cs t h. h)
      where
        report : List Command → Run Request Error Starved
        report cs = pure (starvation_of from_iso now cs)

    detect-Keeps : (app : App) (now : ℕ) → Keeps AllRead (detect from_iso srv app now)
    unfolding detect
    detect-Keeps app now =
        Keeps-bind AllRead (refresh_starvation from_iso srv app now) rest
          (refresh_starvation-Keeps app now)
          λ s.
            Keeps-bind AllRead (grab_import_lag from_iso srv app now) (verdict s)
              (grab_import_lag-Keeps app now) (λ l t h. h)
      where
        verdict : Starved → Lag → Run Request Error Verdict
        verdict s l = pure (judge app s l)

        rest : Starved → Run Request Error Verdict
        rest s = grab_import_lag from_iso srv app now >>= verdict s

    check_apps-Keeps :
        (now : ℕ) (apps : List App) (r : Report)
        → Keeps AllRead (check_apps from_iso srv false now apps r)
    unfolding check_apps
    check_apps-Keeps now [] r = λ t h. h
    check_apps-Keeps now (app ∷ rest) (per_app, remediated) =
        Keeps-bind AllRead (detect from_iso srv app now) go_on (detect-Keeps app now)
          (λ v. check_apps-Keeps now rest (per_app ++ v ∷ [], remediated ++ []))
      where
        go_on : Verdict → Run Request Error Report
        go_on v = check_apps from_iso srv false now rest (per_app ++ v ∷ [], remediated ++ [])

    -- Without `remediate` the check only reads: whatever it finds, and also when it raises, no
    -- request of it deletes, searches or changes a setting.
    pub check_all-AllRead : (now : ℕ) → All IsRead (check_all from_iso srv false now []).1
    unfolding check_all AllRead
    check_all-AllRead now =
        Keeps-bind AllRead (check_apps from_iso srv false now queue_arr_apps ([], [])) report
          (check_apps-Keeps now queue_arr_apps ([], [])) (λ r t h. h) [] tt
      where
        report :
            Report → Run Request Error (List Verdict × List App × List App × List (App × Cleared))
        report r = pure (
          r.0,
          map (λ v. v.app) (keep (λ v. v.starved) r.0),
          map (λ v. v.app) (keep (λ v. v.lagging && not v.starved) r.0),
          r.1,
        )
