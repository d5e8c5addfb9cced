-- ===== src/Tests/Store.antt =====
-- Transactions, migrations and the cache against small environments.
use kit_legacy.Base.{pos, String, ◌≡◌, refl, ◌↔◌, ◌≤◌, ◌<◌, true, false, none, some, [], ◌∷◌}
use kit_legacy.Errors.Value.{foreign}
use kit_legacy.Errors.Error.{to_error, is_error}
use kit_legacy.Errors.Builtin.{err_cache_miss}
use kit_legacy.World.Event.{Event, World}
use kit_legacy.World.Action.{returned, Fallible}
use kit_legacy.World.Context.{Context}
use kit_legacy.Observe.Level.{lvl_error}
use kit_legacy.Database.Store.{PgxEnv}
use kit_legacy.Database.Transaction.{
  transaction, outermost, in_transaction, after_fn, commit_work, within,
}
use kit_legacy.Database.Transaction.Laws.{Commits, transaction-Commits, transaction_nested}
use kit_legacy.Migrator.Operation.{rollback_work, Migrator, MigrateEnv, assert_work, apply_work}
use kit_legacy.Migrator.Rollbacks.{Rolls, rollback_work-Rolls}
use kit_legacy.Migrator.Versions.{
  changes, IsAt, Migrates, assert_work-none_iff, apply_work-Migrates,
}
use kit_legacy.Cache.{Cache, RedisEnv, ch_err_to_error, health_work}
use kit_legacy.Cache.Laws.{ch_err_to_error-miss_iff, health_work-none_iff}
use kit_legacy.Tests.Libs.{plain_errors, patient_timer}
use kit_legacy.Tests.Utils.{background}
use kit_legacy.Tests.Observe.{observer_at}

abbrev pub pgx : PgxEnv String
pgx = record {
  total_conns = λ w. pos 1;
  ping = λ w. none;
  begin_tx = λ w. none;
  commit = λ w. none;
  rollback = λ w. none;
  has_rows = λ inside sql w. true;
  query = λ inside sql w. none;
  scan = λ w. none;
  execute = λ inside sql w. none;
  rows_affected = λ w. pos 1;
  conversion_error = λ v. "interface conversion";
}

abbrev pub writes : Context String → Fallible String
writes ctx w = (returned none, Event.executed ctx.transaction "insert" none ∷ w)

abbrev pub written : World String
written = Event.executed true "insert" none ∷ Event.began none ∷ []

transaction-Commits_example : Commits pgx background writes [] (Event.committed none ∷ written)
transaction-Commits_example =
    transaction-Commits pgx background writes [] (Event.committed none ∷ written) refl
      (unfold transaction outermost in_transaction after_fn commit_work in refl)

abbrev inside : Context String
inside = within background

transaction_inside :
    ((transaction pgx inside writes []).1 ≡ Event.executed true "insert" none ∷ [])
    × (((transaction pgx inside writes []).0 ≡ returned none)
        ↔ ((writes inside []).0 ≡ returned none))
transaction_inside = transaction_nested pgx inside writes [] refl

abbrev pub at_two : MigrateEnv String
at_two = record {
  read_version = λ w. record { version = 2; bad = false; err = none };
  migrate = λ target w. none;
  force = λ target w. none;
  close_source = λ w. none;
  close_database = λ w. none;
  err_nil_version = "no migration";
}

abbrev pub migrator : Migrator
migrator = record { observer = observer_at lvl_error }

assert_work_course :
    (((assert_work migrator at_two (pos 3) []).0 ≡ returned none)
      ↔ IsAt migrator at_two (pos 3) [] 3)
    × (changes (assert_work migrator at_two (pos 3) []).1 ≡ [])
unfolding changes
assert_work_course = assert_work-none_iff migrator at_two (pos 3) []

apply_work-Migrates_example :
    Migrates migrator at_two (pos 3) [] (λ v. v < 3) (apply_work migrator at_two (pos 3) [])
apply_work-Migrates_example = apply_work-Migrates migrator at_two (pos 3) []

abbrev at_two_dirty : MigrateEnv String
at_two_dirty = record at_two { read_version = λ w. record { version = 2; bad = true; err = none } }

rollback_work-Rolls_example :
    Rolls migrator at_two_dirty (pos 1) [] (rollback_work migrator at_two_dirty (pos 1) [])
rollback_work-Rolls_example = rollback_work-Rolls migrator at_two_dirty (pos 1) []

abbrev pub redis : RedisEnv String
redis = record {
  total_conns = λ w. 4;
  ping = λ w. ("PONG", none);
  set = λ key w. none;
  get = λ key w. some (foreign "cache: key is missing");
  delete = λ key w. none;
  close_pool = λ w. none;
  err_cache_miss = "cache: key is missing";
}

abbrev pub cache : Cache
cache = record {
  config = record {
    cache_host = "localhost";
    cache_port = pos 6379;
    cache_ssl_mode = false;
    cache_password = "";
    cache_min_conns = pos 1;
    cache_max_conns = pos 10;
    cache_max_conn_idle_time = pos 0;
    cache_max_conn_life_time = pos 0;
    cache_read_timeout = pos 0;
    cache_write_timeout = pos 0;
    cache_dial_timeout = pos 0;
    cache_acquire_timeout = pos 0;
    cache_local_config = none;
  };
  observer = observer_at lvl_error;
}

ch_err_to_error-miss_iff_test :
    (is_error {F = String} err_cache_miss (to_error (ch_err_to_error redis (foreign "eof"))) ≡ true)
    ↔ (foreign "eof" ≡ foreign redis.err_cache_miss)
ch_err_to_error-miss_iff_test = ch_err_to_error-miss_iff redis (foreign "eof")

health_work_course : ((health_work cache redis background []).0 ≡ returned none) ↔ (
    (1 ≤ redis.total_conns [])
    × (redis.ping [] ≡ ("PONG", none))
    × (background.err (Event.pinged none ∷ []) ≡ none))
health_work_course = health_work-none_iff cache redis background []
