-- ===== src/Normalize/Isolation.antt =====
-- The loop over the records of a message: each record counts for itself, whatever stands beside it.
use tickstream_streaming_lak.Prelude.{
  ◌≡◌, true, Option, none, some, List, [], ◌∷◌, ◌++◌, All, append_assoc, append-nil,
}
use tickstream_streaming_lak.Errors.{Result, ok, err}
use tickstream_streaming_lak.Py.{Json}
use tickstream_streaming_lak.Schema.{MarketEvent}
use tickstream_streaming_lak.Normalize.Record.{
  Reject, raised, Batch, is_normalize_error, take_record, take_records,
}

module _ {F : Type 0} where
  -- What one record gives, read off its own result alone.
  abbrev pub event_of : Result (Option (MarketEvent F)) → List (MarketEvent F)
  event_of (ok (some e)) = e ∷ []
  event_of r = []

  abbrev pub reject_of : Json F → Result (Option (MarketEvent F)) → List (Reject F)
  reject_of rec (err x) = (raised x, rec) ∷ []
  reject_of rec r = []

  -- No exception but those that the handler catches.
  abbrev pub IsCaught : Result (Option (MarketEvent F)) → Type 0
  IsCaught (err x) = is_normalize_error x ≡ true
  IsCaught r = Unit

  module _ (parse : Json F → Result (Option (MarketEvent F))) where
    abbrev pub events_of : List (Json F) → List (MarketEvent F)
    events_of [] = []
    events_of (rec ∷ recs) = event_of (parse rec) ++ events_of recs

    abbrev pub rejects_of : List (Json F) → List (Reject F)
    rejects_of [] = []
    rejects_of (rec ∷ recs) = reject_of rec (parse rec) ++ rejects_of recs

    take_record_lem :
        (rec : Json F) (res : Result (Option (MarketEvent F))) (batch : Batch F)
        → IsCaught res
        → take_record rec res batch
          ≡ ok record {
            events = batch.events ++ event_of res;
            rejects = batch.rejects ++ reject_of rec res;
          }
    unfolding take_record
    take_record_lem rec (ok none) batch h = simp append-nil
    take_record_lem rec (ok (some e)) batch h = simp append-nil
    take_record_lem rec (err x) batch h = simp (h, append-nil)

    -- If no record raises anything but NORMALIZE_ERRORS, the loop appends to the batch the events
    -- and the rejects of each record, in order, and each record contributes what its own parse
    -- says: a bad record costs its siblings nothing.
    pub take_records_isolates :
        (recs : List (Json F)) (batch : Batch F)
        → All (λ rec. IsCaught (parse rec)) recs
        → take_records parse recs batch
          ≡ ok record {
            events = batch.events ++ events_of recs;
            rejects = batch.rejects ++ rejects_of recs;
          }
    unfolding take_records
    take_records_isolates [] batch h = simp append-nil
    take_records_isolates (rec ∷ recs) batch (h, hs) =
        rw (take_record_lem rec (parse rec) batch h)
          (rw (take_records_isolates recs _ hs) (simp append_assoc))
