-- ===== src/Kafka/Topics.antt =====
-- Laws of `ensure_topics` and of `DeliveryCounter` of kafka_utils.py.
use tickstream_streaming_lak.Prelude.{◌+◌, ◌≡◌, Bool, List, [], ◌∷◌, length, count_if, arith}
use tickstream_streaming_lak.Prelude.Eq.{string_eq}
use tickstream_streaming_lak.Kafka.{DeliveryCounter, on_delivery, deliver_all}

-- After the callbacks every message is counted once, as delivered or as failed, by its error.
pub deliver_all-counts :
    (c : DeliveryCounter) (failures : List Bool)
    → ((deliver_all c failures).failed ≡ c.failed + count_if (λ f. f) failures)
      × ((deliver_all c failures).delivered + (deliver_all c failures).failed
          ≡ c.delivered + c.failed + length failures)
unfolding deliver_all on_delivery
deliver_all-counts c [] = (omega arith, omega arith)
deliver_all-counts c (f ∷ fs) =
    let (h, k) = deliver_all-counts (on_delivery c f) fs in ground (arith, h, k)
