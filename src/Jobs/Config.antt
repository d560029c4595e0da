-- ===== src/Jobs/Config.antt =====
-- The settings of the workers: `JobConfig` and `QueueConfig` of rapina/src/jobs/worker.rs. An
-- outer `none` is a panic.
use rapina.Prelude.{
  ℕ, Bool, ◌*◌, List, [], ◌∷◌, ◌++◌, Option, none, some, Bytes, codes, bytes_eq, if◌then◌else◌, any,
  map, is_empty, ◌>>=◌, unwrap_or,
}
use rapina.Jobs.Backend.{ResolvedQueueConfig}

pub record QueueConfig : Type 0 where
  pub queue_name : Bytes
  pub poll_interval : Option ℕ
  pub batch_size : Option ℕ
  pub job_timeout : Option ℕ

pub record JobConfig : Type 0 where
  pub poll_interval : ℕ
  pub batch_size : ℕ
  pub queues : List Bytes
  pub job_timeout : ℕ
  pub queue_configs : List QueueConfig

abbrev pub seconds : ℕ → ℕ
seconds n = n * 1000000000

unfoldable pub default : JobConfig
default = record {
  poll_interval = seconds 5;
  batch_size = 10;
  queues = codes "default" ∷ [];
  job_timeout = seconds 30;
  queue_configs = [];
}

-- `JobConfig::poll_interval`, `batch_size` and `job_timeout`.
unfoldable pub with_poll_interval : ℕ → JobConfig → JobConfig
with_poll_interval interval config = record config { poll_interval = interval }

unfoldable pub with_batch_size : ℕ → JobConfig → JobConfig
with_batch_size size config = record config { batch_size = size }

unfoldable pub with_job_timeout : ℕ → JobConfig → JobConfig
with_job_timeout timeout config = record config { job_timeout = timeout }

abbrev pub contains : Bytes → List Bytes → Bool
contains q qs = any (λ p. bytes_eq p q) qs

-- The loop of `queues`, on the names kept so far.
abbrev pub unique_from : List Bytes → List Bytes → Option (List Bytes)
unique_from unique [] = some unique
unique_from unique (q ∷ qs) =
    if is_empty q
    then none
    else unique_from (if contains q unique then unique else unique ++ q ∷ []) qs

unfoldable pub with_queues : List Bytes → JobConfig → Option JobConfig
with_queues queues config = do
  unique ← unique_from [] queues
  if is_empty unique then none else some (record config { queues = unique })

-- The first config of the name is replaced, or the config is pushed.
abbrev pub replace_or_push : QueueConfig → List QueueConfig → List QueueConfig
replace_or_push config [] = config ∷ []
replace_or_push config (c ∷ configs) =
    if bytes_eq c.queue_name config.queue_name
    then config ∷ configs
    else c ∷ replace_or_push config configs

abbrev pub add_queue_config : QueueConfig → JobConfig → JobConfig
add_queue_config config self = record self {
  queues =
      if contains config.queue_name self.queues
      then self.queues
      else self.queues ++ config.queue_name ∷ [];
  queue_configs = replace_or_push config self.queue_configs;
}

unfoldable pub with_queue_configs : List QueueConfig → JobConfig → JobConfig
with_queue_configs [] self = self
with_queue_configs (config ∷ configs) self =
    with_queue_configs configs (add_queue_config config self)

abbrev pub find_config : Bytes → List QueueConfig → Option QueueConfig
find_config name [] = none
find_config name (c ∷ configs) =
    if bytes_eq c.queue_name name then some c else find_config name configs

abbrev pub resolve : JobConfig → Bytes → ResolvedQueueConfig
resolve config name =
    let over = find_config name config.queue_configs in
    record {
      queue = name;
      poll_interval = unwrap_or (over >>= λ c. c.poll_interval) config.poll_interval;
      batch_size = unwrap_or (over >>= λ c. c.batch_size) config.batch_size;
      job_timeout = unwrap_or (over >>= λ c. c.job_timeout) config.job_timeout;
    }

unfoldable pub resolved_queues : JobConfig → List ResolvedQueueConfig
resolved_queues config = map (resolve config) config.queues

-- `QueueConfig::new` and its overrides.
unfoldable pub new : Bytes → Option QueueConfig
new queue_name =
    if is_empty queue_name
    then none
    else some (record {
      queue_name = queue_name;
      poll_interval = none;
      batch_size = none;
      job_timeout = none;
    })

unfoldable pub override_poll_interval : ℕ → QueueConfig → QueueConfig
override_poll_interval interval config = record config { poll_interval = some interval }

unfoldable pub override_batch_size : ℕ → QueueConfig → QueueConfig
override_batch_size size config = record config { batch_size = some size }

unfoldable pub override_job_timeout : ℕ → QueueConfig → QueueConfig
override_job_timeout timeout config = record config { job_timeout = some timeout }
