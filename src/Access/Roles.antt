-- ===== src/Access/Roles.antt =====
-- The constants of core/access_control.py: roles, capabilities, and what each role grants.
use xyn.Base.{String, List, [], ◌∷◌}

abbrev pub cap_platform_access_read : String
cap_platform_access_read = "platform.access.read"

abbrev pub cap_jurisdictions_manage : String
cap_jurisdictions_manage = "app.jurisdictions.manage"

abbrev pub cap_sources_manage : String
cap_sources_manage = "app.sources.manage"

abbrev pub cap_mappings_inspect : String
cap_mappings_inspect = "app.mappings.inspect"

abbrev pub cap_refreshes_run : String
cap_refreshes_run = "app.refreshes.run"

abbrev pub cap_ingest_runs_read : String
cap_ingest_runs_read = "app.ingest_runs.read"

abbrev pub cap_failures_read : String
cap_failures_read = "app.failures.read"

abbrev pub cap_artifacts_read : String
cap_artifacts_read = "app.artifacts.read"

abbrev pub cap_provenance_read : String
cap_provenance_read = "app.provenance.read"

abbrev pub cap_datasets_publish : String
cap_datasets_publish = "app.datasets.publish"

abbrev pub cap_source_diagnostics_read : String
cap_source_diagnostics_read = "app.sources.diagnostics.read"

abbrev pub cap_campaigns_manage : String
cap_campaigns_manage = "app.campaigns.manage"

abbrev pub cap_watches_manage : String
cap_watches_manage = "app.watches.manage"

abbrev pub cap_subscribers_manage : String
cap_subscribers_manage = "app.subscribers.manage"

abbrev pub cap_notification_targets_manage : String
cap_notification_targets_manage = "app.notification_targets.manage"

abbrev pub cap_match_review : String
cap_match_review = "app.matches.review"

abbrev pub cap_signals_review : String
cap_signals_review = "app.signals.review"

abbrev pub cap_campaign_history_read : String
cap_campaign_history_read = "app.campaign_history.read"

abbrev pub cap_notifications_read : String
cap_notifications_read = "app.notifications.read"

abbrev pub cap_app_read : String
cap_app_read = "app.read"

abbrev pub role_capability_map : List (String × List String)
role_capability_map =
    (
      "application_admin",
      cap_platform_access_read ∷ cap_jurisdictions_manage ∷ cap_sources_manage
          ∷ cap_mappings_inspect ∷ cap_refreshes_run ∷ cap_ingest_runs_read ∷ cap_failures_read
          ∷ cap_artifacts_read ∷ cap_provenance_read ∷ cap_datasets_publish
          ∷ cap_source_diagnostics_read ∷ cap_campaigns_manage ∷ cap_watches_manage
          ∷ cap_subscribers_manage ∷ cap_notification_targets_manage ∷ cap_match_review
          ∷ cap_signals_review ∷ cap_campaign_history_read ∷ cap_notifications_read ∷ cap_app_read
          ∷ [],
    )
    ∷ (
      "campaign_operator",
      cap_platform_access_read ∷ cap_campaigns_manage ∷ cap_watches_manage ∷ cap_subscribers_manage
          ∷ cap_notification_targets_manage ∷ cap_match_review ∷ cap_signals_review
          ∷ cap_campaign_history_read ∷ cap_notifications_read ∷ cap_ingest_runs_read
          ∷ cap_failures_read ∷ cap_app_read ∷ [],
    )
    ∷ (
      "read_only_analyst",
      cap_platform_access_read ∷ cap_ingest_runs_read ∷ cap_failures_read
          ∷ cap_campaign_history_read ∷ cap_notifications_read ∷ cap_signals_review
          ∷ cap_match_review ∷ cap_app_read ∷ [],
    )
    ∷ []
