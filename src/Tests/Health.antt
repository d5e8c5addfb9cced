-- ===== src/Tests/Health.antt =====
-- `Health` of a database and a cache with enough connections.
use kit_legacy.Base.{String, ◌≡◌, Option, []}
use kit_legacy.Errors.Value.{GoError}
use kit_legacy.Errors.Builtin.{
  err_cache_generic, err_cache_timed_out, err_cache_unhealthy, err_database_generic,
  err_database_timed_out, err_database_unhealthy,
}
use kit_legacy.World.Action.{returned}
use kit_legacy.Utils.Deadline.Health.{Reports}
use kit_legacy.Cache
use kit_legacy.Cache.Health.{health-Reports}
use kit_legacy.Cache.Health as CacheHealth
use kit_legacy.Database.Store
use kit_legacy.Database.Health.{health_lem}
use kit_legacy.Database.Health as DatabaseHealth
use kit_legacy.Tests.Libs.{plain_errors, patient_timer}
use kit_legacy.Tests.Utils.{hurried}
use kit_legacy.Tests.Store.{redis, cache, pgx}
use kit_legacy.Tests.Queries.{database}

health-Reports_example :
    (result : Option (GoError String)) × (Cache.health cache redis hurried []
      ≡ (returned result, (Cache.health_work cache redis hurried []).1))
    × Reports hurried err_cache_timed_out err_cache_generic err_cache_unhealthy
        (Cache.health_work cache redis hurried)
        []
        (CacheHealth.IsHealthy cache redis hurried [])
        result
health-Reports_example = health-Reports cache redis hurried []

health_lem_example :
    (result : Option (GoError String)) × (Store.health database pgx hurried []
      ≡ (returned result, (Store.health_work database pgx hurried []).1))
    × Reports hurried err_database_timed_out err_database_generic err_database_unhealthy
        (Store.health_work database pgx hurried)
        []
        (DatabaseHealth.IsHealthy database pgx hurried [])
        result
health_lem_example = health_lem database pgx hurried []
