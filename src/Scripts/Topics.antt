-- ===== src/Scripts/Topics.antt =====
-- scripts/create_topics.py: the topics there should be, those that are missing, and the exit code. The
-- cluster, which lists the topics and makes them, is a parameter; the replication factor is a
-- natural number.
mod Missing
use realtime_finance_bot.Base.{
  ℕ, ◌-◌, ◌*◌, max, Bool, true, false, Option, none, some, List, [], ◌∷◌, map, if◌then◌else◌, Str,
  str, str_eq, Dict, Result, ok, raise, zero, suc,
}
use realtime_finance_bot.Python.Number.{show_nat}
use realtime_finance_bot.Python.Values.{Error}

abbrev pub hour_ms : ℕ
hour_ms = 3600 * 1000

abbrev pub day_ms : ℕ
day_ms = 24 * hour_ms

pub record TopicSpec : Type 0 where
  pub name : Str
  pub partitions : ℕ
  pub retention_ms : ℕ

abbrev pub spec : Str → ℕ → ℕ → TopicSpec
spec name partitions retention_ms = record {
  name = name;
  partitions = partitions;
  retention_ms = retention_ms;
}

-- `TOPIC_SPECS`
abbrev pub topic_specs : List TopicSpec
topic_specs =
    spec (str "md.trades.v1") 6 (24 * hour_ms)
    ∷ spec (str "md.book.top.v1") 6 (6 * hour_ms)
    ∷ spec (str "md.book.depth.v1") 6 (2 * hour_ms)
    ∷ spec (str "md.bars.v1") 3 (48 * hour_ms)
    ∷ spec (str "news.articles.v1") 3 (7 * day_ms)
    ∷ spec (str "ops.metrics.v1") 1 (7 * day_ms)
    ∷ spec (str "_dlq.md.trades.v1") 1 (7 * day_ms)
    ∷ spec (str "_dlq.md.book.top.v1") 1 (7 * day_ms)
    ∷ spec (str "_dlq.md.book.depth.v1") 1 (7 * day_ms)
    ∷ spec (str "_dlq.md.bars.v1") 1 (7 * day_ms)
    ∷ spec (str "_dlq.news.articles.v1") 1 (7 * day_ms)
    ∷ []

-- The arguments of a NewTopic.
pub record NewTopic : Type 0 where
  pub topic : Str
  pub num_partitions : ℕ
  pub replication_factor : ℕ
  pub config : Dict Str Str

unfoldable pub to_new_topic : ℕ → TopicSpec → NewTopic
to_new_topic replication_factor s = record {
  topic = s.name;
  num_partitions = s.partitions;
  replication_factor = replication_factor;
  config =
      (str "retention.ms", show_nat s.retention_ms)
      ∷ (str "compression.type", str "zstd")
      ∷ (str "min.insync.replicas", show_nat (max 1 (replication_factor - 1)))
      ∷ [];
}

-- The configuration of the client: the credentials go in where both are given and not empty.
unfoldable pub client_config : Str → Option Str → Option Str → Dict Str Str
client_config bootstrap (some (u ∷ user)) (some (p ∷ password)) =
    (str "bootstrap.servers", bootstrap)
    ∷ (str "security.protocol", str "SASL_SSL")
    ∷ (str "sasl.mechanisms", str "SCRAM-SHA-512")
    ∷ (str "sasl.username", u ∷ user)
    ∷ (str "sasl.password", p ∷ password)
    ∷ []
client_config bootstrap _ _ = (str "bootstrap.servers", bootstrap) ∷ []

-- `s.name not in existing`
unfoldable pub has_topic : Str → List Str → Bool
has_topic name [] = false
has_topic name (t ∷ topics) = if str_eq name t then true else has_topic name topics

unfoldable pub wanted : List Str → List TopicSpec → List TopicSpec
wanted existing [] = []
wanted existing (s ∷ specs) =
    let rest = wanted existing specs in if has_topic s.name existing then rest else s ∷ rest

-- One future for each name, with whether its result came; the failures are counted.
unfoldable pub count_failed : Dict Str Bool → ℕ
count_failed [] = 0
count_failed ((name, true) ∷ futures) = count_failed futures
count_failed ((name, false) ∷ futures) = suc (count_failed futures)

unfoldable pub exit_code : ℕ → ℕ
exit_code zero = 0
exit_code (suc failed) = 1

module _ {W : Type 0} (list_topics : W → Result Error (List Str) × W)
    (create_topics : List NewTopic → W → Result Error (Dict Str Bool) × W) where
  unfoldable pub after_create : Result Error (Dict Str Bool) × W → Result Error ℕ × W
  after_create (ok futures, w) = (ok (exit_code (count_failed futures)), w)
  after_create (raise e, w) = (raise e, w)

  unfoldable pub create_missing : ℕ → List TopicSpec → W → Result Error ℕ × W
  create_missing replication_factor [] w = (ok 0, w)
  create_missing replication_factor (s ∷ specs) w =
      after_create (create_topics (map (to_new_topic replication_factor) (s ∷ specs)) w)

  unfoldable pub after_list : ℕ → Result Error (List Str) × W → Result Error ℕ × W
  after_list replication_factor (ok existing, w) =
      create_missing replication_factor (wanted existing topic_specs) w
  after_list replication_factor (raise e, w) = (raise e, w)

  -- `main`, from the listing of the topics on.
  unfoldable pub create : ℕ → W → Result Error ℕ × W
  create replication_factor w = after_list replication_factor (list_topics w)
