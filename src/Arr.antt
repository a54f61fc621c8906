-- ===== src/Arr.antt =====
-- control-panel-django/core/arr_client.py: the calls that the panel makes of Radarr and Sonarr.
-- `Api` has the records and requests, the other modules the operations, and `Arr/*/…` what is proved.
pub mod Api
pub mod Blocklist
