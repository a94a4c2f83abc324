-- ===== src/Tests/Sample.antt =====
-- Concrete data for the tests: integers for floats, a small reader of digits, two settings.
use Prim.Native.Nat.{ℕ, ◌^◌}
use tickstream_streaming_lak.Prelude.{
  ◌+◌, ◌-◌, ◌*◌, ◌/◌, String, ◌&&◌, Option, none, some, List, [], ◌∷◌, leb, ltb, nat_beq,
  if◌then◌else◌,
}
use tickstream_streaming_lak.Prelude.Int.{ℤ, pos, ◌+ℤ◌, ◌-ℤ◌, ◌*ℤ◌, ltb_ℤ, leb_ℤ, int_beq, pos_part}
use tickstream_streaming_lak.Prelude.Text.{codes}
use tickstream_streaming_lak.Errors.{ok, err, overflow_error}
use tickstream_streaming_lak.Config.{Settings, default_topics, ExchangeProfile}
use tickstream_streaming_lak.Py.{Double, Json, str, obj, null, close, field, Runtime, Fields}
use tickstream_streaming_lak.Schema.{MarketEvent, EventType}

abbrev read_digits : ℕ → List ℕ → Option ℕ
read_digits n [] = some n
read_digits n (c ∷ cs) =
    let rest = read_digits (n * 10 + (c - b'0')) cs in
    if leb b'0' c && leb c b'9' then rest else none

abbrev pub read_number : String → Option ℤ
read_number s = elim (read_digits 0 (codes s)) [ none ↦ none | some n ↦ some (pos n) ]

-- Powers from the third on do not fit.
instance abbrev pub whole_numbers : Double ℤ
whole_numbers = record {
  zero_f = pos 0;
  add = ◌+ℤ◌;
  sub = ◌-ℤ◌;
  mul = ◌*ℤ◌;
  div = λ a b. pos (pos_part a / pos_part b);
  lt = ltb_ℤ;
  le = leb_ℤ;
  eq = int_beq;
  of_count = pos;
  of_int = λ n. ok n;
  pow = λ a n. if ltb n 3 then ok (pos (pos_part a ^ n)) else err overflow_error;
  parse = read_number;
  int_of = λ n. ok n;
}

abbrev pub plain : Runtime ℤ
plain = record {
  upper = λ s. s;
  lower = λ s. s;
  render = λ v. "?";
  is_space = λ c. nat_beq c 32;
  is_digit = λ c. leb b'0' c && leb c b'9';
  parse_int = read_number;
  from_iso = λ cs. elim (read_digits 0 cs) [
    | none ↦ none
    | some n ↦ some record { local = pos (n * 1_000_000); offset = none }
  ];
  from_timestamp = λ n. ok n;
}

abbrev pub coinbase_profile : ExchangeProfile
coinbase_profile = record { ws_url = "wss://c"; channel_map = []; symbol_style = "dash" }

abbrev pub binance_profile : ExchangeProfile
binance_profile = record { ws_url = "wss://b"; channel_map = []; symbol_style = "concat" }

abbrev pub sample_settings : Settings
sample_settings = record {
  topics = default_topics;
  source = record {
    exchange = "coinbase";
    symbols = "BTC-USD" ∷ "ETH-USD" ∷ [];
    channels = "trades" ∷ "ticker" ∷ [];
    exchanges = ("coinbase", coinbase_profile) ∷ ("binance_us", binance_profile) ∷ [];
  };
  default_partitions = 1;
}

abbrev pub trade_fields : String → String → String → Json ℤ → Fields ℤ
trade_fields product price size time = field "product_id" (str product) (
    field "price" (str price)
      (field "size" (str size) (field "side" (str "BUY") (field "time" time close))))

-- A good trade, one with a price of zero, and one with a time that is no text.
abbrev pub good_trade : Json ℤ
good_trade = obj (trade_fields "BTC-USD" "100" "2" (str "61"))

abbrev pub bad_trade : Json ℤ
bad_trade = obj (trade_fields "BTC-USD" "0" "2" (str "61"))

abbrev pub null_time_fields : Fields ℤ
null_time_fields = trade_fields "BTC-USD" "100" "2" null

abbrev pub sample_trade : String → ℕ → ℕ → ℕ → MarketEvent ℤ
sample_trade symbol price size second = record {
  exchange = "coinbase";
  symbol = symbol;
  event_type = EventType.trade;
  price = some (pos price);
  size = some (pos size);
  side = none;
  trade_id = none;
  best_bid = none;
  best_ask = none;
  best_bid_size = none;
  best_ask_size = none;
  ts_event = pos (second * 1_000_000);
  ts_ingest = pos 0;
}

abbrev pub sample_events : List (MarketEvent ℤ)
sample_events =
    sample_trade "ETH-USD" 10 1 70
    ∷ sample_trade "BTC-USD" 100 2 61
    ∷ sample_trade "BTC-USD" 200 2 119
    ∷ sample_trade "BTC-USD" 300 1 125
    ∷ []
