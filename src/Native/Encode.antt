-- ===== src/Native/Encode.antt =====
-- awsnative/encode.py: a trade as one JSON document.
use realtime_finance_bot.Base.{Str, str, pos}
use realtime_finance_bot.Ingest.Models.{Trade, to_avro_then}
use realtime_finance_bot.Python.Json.{Fields, integer, object, field, end, dumps}

-- `to_avro` and the schema version behind its fields.
unfoldable pub trade_to_dict : Trade → Fields
unfolding to_avro_then
trade_to_dict t = to_avro_then t (field (str "schema_version") (integer (pos 1)) end)

-- The text is ASCII, so its encoding is the text itself.
unfoldable pub encode_trade : Trade → Str
unfolding trade_to_dict dumps
encode_trade t = dumps (object (trade_to_dict t))
