-- ===== src/Ingest/Models.antt =====
-- ingest/core/models.py: the trade record, its partition key and its flat form.
use realtime_finance_bot.Base.{Bool, Option, none, some, ◌∷◌, ◌++◌, ℤ, Str, str}
use realtime_finance_bot.Python.Json.{Json, Fields, null, boolean, integer, string, end, field}

pub data Side : Type 0 where
  buy sell unknown : Side

pub data Source : Type 0 where
  stream rest_repair archive : Source

unfoldable pub side_value : Side → Str
side_value buy = str "BUY"
side_value sell = str "SELL"
side_value unknown = str "UNKNOWN"

unfoldable pub source_value : Source → Str
source_value stream = str "STREAM"
source_value rest_repair = str "REST_REPAIR"
source_value archive = str "ARCHIVE"

pub record Trade : Type 0 where
  pub venue : Str
  pub venue_symbol : Str
  pub instrument_id : Str
  pub trade_id : Str
  pub event_ts_us : ℤ
  pub ingest_ts_us : ℤ
  pub price : Str
  pub size : Str
  pub side : Side
  pub sequence : Option ℤ
  pub is_backfill : Bool
  pub source : Source

-- The text that `kafka_key` encodes.
unfoldable pub kafka_key : Trade → Str
kafka_key t = t.venue ++ (b'|' ∷ t.venue_symbol)

abbrev optional_int : Option ℤ → Json
optional_int none = null
optional_int (some n) = integer n

-- The flat record, with `more` after its last field.
unfoldable pub to_avro_then : Trade → Fields → Fields
unfolding side_value source_value
to_avro_then t more = field (str "venue") (string t.venue) (
    field (str "venue_symbol") (string t.venue_symbol) (
      field (str "instrument_id") (string t.instrument_id) (
        field (str "trade_id") (string t.trade_id) (
          field (str "event_ts_us") (integer t.event_ts_us) (
            field (str "ingest_ts_us") (integer t.ingest_ts_us) (
              field (str "price") (string t.price) (
                field (str "size") (string t.size) (
                  field (str "side") (string (side_value t.side)) (
                    field (str "sequence") (optional_int t.sequence) (
                      field (str "is_backfill") (boolean t.is_backfill)
                        (field (str "source") (string (source_value t.source)) more)))))))))))

unfoldable pub to_avro : Trade → Fields
unfolding to_avro_then
to_avro t = to_avro_then t end
