-- ===== src/Lib.antt =====
-- media-stack: the parts of the program that decide and act, modelled and verified.
--
-- The program is a Docker Compose media stack with a Django control panel (control-panel-django/)
-- and host scripts (scripts/). The panel and the scripts talk over HTTP to Radarr, Sonarr, Plex and
-- the Docker daemon; their own logic is which requests they send, in what order, and what they make
-- of the answers. Here an action is a function of the requests sent so far (Common/Run.antt): it
-- returns or raises, and gives the requests sent by its end. What answers is a parameter, any
-- function of the requests before it, so each theorem holds whatever the other side does.
--
-- - Common.antt and below: tests on numbers and texts, lists, integers, Python's `str` methods over
--   code points, and the rules for actions.
-- - Monitor.antt: scripts/plex-health-monitor.py. `State` is the locals of `main`, `cycle` one turn
--   of its loop and `run` the loop over the polls that come in; `classify` and `scan_progress` keep
--   their names. Times are in milliseconds.
-- - Auth.antt: control-panel-django/core/authentication.py, permissions.py, middleware.py and
--   decorators.py. The SHA-256 digest and Django REST framework are parameters; `Auth/Views.antt`
--   states what is assumed of the framework.
-- - Arr.antt: control-panel-django/core/arr_client.py, for the queue, `blocklist_and_research` and
--   `disable_autoredownload_if_storm`. `Servers` is what Radarr and Sonarr answer; the bodies of the
--   two reads whose errors nothing catches may be unreadable.
-- - Starvation.antt: control-panel-django/core/import_starvation.py, over the same servers. Dates
--   are numbers of microseconds; reading a date is a parameter.
-- - Catalog.antt: control-panel-django/catalog/. `Catalog/Entries/` has the entries, one module for
--   each file of catalog/entries/, `Catalog/Registry.antt` is registry.py, and
--   `Catalog/Services.antt` is `install` and `remove` of services.py, with every branch of the source
--   a helper by clauses; Docker is the record `Docker` of what it answers.
-- - Fleet.antt: control-panel-django/core/docker_client.py and host/services.py, for the lookup of
--   the compose project and the restarts, stops and starts. `restart_all` runs its worker in place
--   of the thread, as one sequence of requests.
-- - Helper.antt: scripts/host-helper/helper.py. `serve` runs over the connections that come in, each
--   the chunks that `recv` gives; what the commands and the peers answer are parameters.
-- - HostActions.antt: control-panel-django/core/host_helper_client.py, host_actions/services.py and
--   host_actions/api/views.py. The client works over any socket; `HostActions/Daemon.antt` puts the
--   daemon of Helper.antt behind it, under the laws that the record `Link` asks of the JSON library
--   and of the stream, and gives up after the client's 600 seconds; how long the client has waited by
--   the reply is a parameter.
-- - Badfiles.antt: scripts/checkrr-badfiles-report.py. `verify_file` and the tables keep their names;
--   `Badfiles/Report.antt` is the input and `main` up to the rows, `Badfiles/Commands.antt` is
--   `emit_commands`, `Badfiles/Index.antt` has the two indexes and `Badfiles/Config.antt` the reading
--   of the configuration. Paths, file headers and what comes of asking an instance, an exception
--   that nothing catches included, are parameters; a row has the key of its instance, and a printed
--   command also the port and the API key that the configuration has for it.
-- - Exporter.antt: nzbdav-exporter/exporter.py. `State` is its three dictionaries, `set` and
--   `remove_family` are `_set` and `_remove_family`, and `Exporter/Scrape.antt` is `_scrape` over the
--   answers of NzbDAV (`Exporter/Answers.antt`), as one sequence of writes; `Exporter/Server.antt` has
--   the turns and the pages. The texts of values stand as data, and floats are a parameter, assumed
--   not to overflow.
-- - Webhook.antt: scripts/plex-webhook-listener.py, for the notice of a new item and the worker;
--   `Webhook/Intake.antt` is `do_POST`. What Discord answers is a function of the steps before.
-- - Reconcile.antt: scripts/plex-arr-reconcile.py, for the sweep inside the plex container, with the
--   shell's loop over the lines and `splitlines` on what it prints, and the report. The report is the list of what is appended to the
--   buckets, in order; the counts beside them are left out. `Reconcile/Sources.antt` has the paths
--   of both sides and `main`.
-- - Settings.antt: control-panel-django/core/settings.py. `Store` has the rows of the table and the
--   dictionary DEFAULTS, which `remember_value` can change.
-- - Queue.antt: control-panel-django/queue_app/services.py, for the samples and buckets of the Radarr
--   and Sonarr queues.
--
-- Loops over collections are recursion on lists, and the two delete attempts of
-- `blocklist_and_research` recur on the attempts left, so nothing here runs on fuel. Texts that are
-- only printed or sent to people stand as data with the values that they show.
--
-- Not modelled: the delivery of notices, HTML views and templates, serializers, Django's own
-- machinery, the SQL behind the tables, and the scripts and services that no module names.
pub mod Common
pub mod Badfiles
pub mod Catalog
pub mod Exporter
pub mod Fleet
pub mod Helper
pub mod HostActions
pub mod Queue
pub mod Monitor
pub mod Auth
pub mod Arr
pub mod Webhook
pub mod Reconcile
pub mod Settings
pub mod Starvation
