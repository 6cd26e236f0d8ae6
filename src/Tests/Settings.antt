-- ===== src/Tests/Settings.antt =====
-- The configuration of the tests, checked and completed.
use caddy_blockchain_health.Common.{◌≡◌, refl, Option, none, some, String}
use caddy_blockchain_health.Common.Int.{ℤ, pos}
use caddy_blockchain_health.Types.Config.{Config}
use caddy_blockchain_health.Settings.{
  set_defaults, validate, check_nodes, check_node, check_references, check_reference,
  check_duration, check_threshold,
}
use caddy_blockchain_health.Settings.Ready.{ReadsDefaults, IsComplete, validate-IsComplete}
use caddy_blockchain_health.Tests.Data.{config, host_of}

-- The configuration with its timing left out.
abbrev terse : Config
terse = record config {
  health_check = record { interval = ""; timeout = ""; retry_attempts = pos 0; retry_delay = "" };
  performance = record { cache_duration = ""; max_concurrent_checks = pos 0 };
}

abbrev any_duration : String → Option ℤ
any_duration text = some (pos 30)

reads : ReadsDefaults any_duration
reads = record { s15 = refl; s5 = refl; s1 = refl; s30 = refl; s60 = refl }

accepted : validate host_of any_duration terse ≡ none
unfolding validate check_nodes check_node check_references check_reference check_duration
    check_threshold
accepted = refl

validate-IsComplete_example : IsComplete host_of any_duration (set_defaults terse)
validate-IsComplete_example = validate-IsComplete host_of any_duration terse reads accepted
