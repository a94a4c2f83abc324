-- ===== src/Producer/Exchanges.antt =====
-- producer/exchanges/: the choice and the set-up of a client, and the frames that it hands on.
-- The socket enters as the list of the frames that it brings.
pub mod Frames
use tickstream_streaming_lak.Prelude.{
  ℕ, String, Bool, true, false, Option, none, some, List, [], ◌∷◌, ◌++◌, map, if◌then◌else◌,
  nat_beq,
}
use Prim.Native.Char.{code}
use Prim.Native.String.{◌++◌ as ◌<>◌}
use tickstream_streaming_lak.Prelude.Eq.{◌==◌, string_eq}
use tickstream_streaming_lak.Prelude.Dict.{get}
use tickstream_streaming_lak.Errors.{Exc, Result, ok, err, value_error, type_error}
use tickstream_streaming_lak.Config.{ExchangeProfile, exchange_symbol, exchange_channel, Settings}
use tickstream_streaming_lak.Py.{
  Json, null, str, arr, obj, Items, end, item, close, field, get_field_or, is_text,
}

pub data Client : Type 0 where
  coinbase : String → List String → List String → Client
  binance_us : String → List String → Client

-- `"?" in ws_url`
unfoldable pub has_char : ℕ → String → Bool
has_char c String.[] = false
has_char c (String.◌∷◌ x s) = let rest = has_char c s in if nat_beq (code x) c then true else rest

-- `"/".join(parts)`
unfoldable pub join_slash : List String → String
join_slash [] = ""
join_slash (p ∷ []) = p
join_slash (p ∷ q ∷ ps) = p <> ("/" <> join_slash (q ∷ ps))

-- `BinanceUSClient.__init__`
unfoldable pub binance_url : String → List String → String
binance_url ws_url streams =
    ws_url <> ((if has_char b'?' ws_url then "&" else "?") <> ("streams=" <> join_slash streams))

module _ (lower : String → String) where
  -- `f"{profile.exchange_symbol(sym).lower()}@{ch}"`, for each symbol and each channel
  unfoldable pub streams_of : ExchangeProfile → List String → List String → List String
  streams_of p channels [] = []
  streams_of p channels (sym ∷ syms) =
      map (λ ch. lower (exchange_symbol p sym) <> ("@" <> ch)) channels
      ++ streams_of p channels syms

  -- `build_client`, with the configured exchange where no name is given
  unfoldable pub build_client : Settings → Option String → Result Client
  build_client settings exchange =
      let source = settings.source in
      let name : String = elim exchange [
        | none ↦ source.exchange
        | some e ↦ if e == "" then source.exchange else e
      ] in
      elim (get name source.exchanges) [
        | none ↦ err value_error
        | some p ↦
            let channels = map (exchange_channel p) source.channels in
            if name == "coinbase"
            then ok (coinbase p.ws_url source.symbols channels)
            else if name == "binance_us"
            then (let streams = streams_of p channels source.symbols in
                ok (binance_us (binance_url p.ws_url streams) streams))
            else err value_error
      ]

module _ {F : Type 0} where
  abbrev texts : List String → Items F
  texts [] = end
  texts (s ∷ ss) = item (str s) (texts ss)

  -- The subscriptions that `CoinbaseClient.stream` sends, one for each channel.
  unfoldable pub subscriptions : List String → List String → List (Json F)
  subscriptions product_ids [] = []
  subscriptions product_ids (channel ∷ channels) =
      obj (
        field "type" (str "subscribe")
          (field "product_ids" (arr (texts product_ids)) (field "channel" (str channel) close)))
      ∷ subscriptions product_ids channels

  -- The messages that it yields, and the exception that ends it, if one does: control frames are
  -- not forwarded; a list or a dict cannot be looked up in the set of control channels.
  abbrev is_hashable : Json F → Bool
  is_hashable (arr vs) = false
  is_hashable (obj fs) = false
  is_hashable v = true

  unfoldable pub coinbase_frames : List (Json F) → List (Json F) × Option Exc
  coinbase_frames [] = ([], none)
  coinbase_frames (msg ∷ msgs) =
      let later = coinbase_frames msgs in
      elim (get_field_or "channel" null msg) [
        | err x ↦ ([], some x)
        | ok channel ↦
            if is_hashable channel
            then (if is_text "subscriptions" channel then later else (msg ∷ later.0, later.1))
            else ([], some type_error)
      ]
