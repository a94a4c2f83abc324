-- ===== src/Pipeline/Failure.antt =====
-- What a run of the pipeline (src/tickstream/pipeline.py) that raises leaves behind, at whatever
-- stage it does.
use tickstream_streaming_lak.Prelude.{
  ℕ, String, ◌≡◌, refl, Bool, true, false, ◌&&◌, List, Option, if◌then◌else◌, subst,
}
use tickstream_streaming_lak.Errors.{Exc, Result, ok, err}
use tickstream_streaming_lak.Config.{Settings}
use tickstream_streaming_lak.Py.{Double}
use tickstream_streaming_lak.Kafka.{Message}
use tickstream_streaming_lak.Producer.Recording.{RecordedMessage}
use tickstream_streaming_lak.Producer.Replay.{ReplaySummary}
use tickstream_streaming_lak.Lake.Marts.{MartsResult, build_marts}
use tickstream_streaming_lak.Pipeline.{
  PipelineResult, Store, Step, ◌>>=◌, give, World, keep_table, has_rows, quarantine_stage,
  bronze_stage, processor_stage, windows_stage, reclaiming, marts_stage, report_stage, reconciled,
  marts_and_report, windows_and_marts, lake_stages, run_pipeline,
}

module _ {F T : Type 0} (P : Store F T → Type 0) where
  -- A step that keeps a property, whether it returns or raises.
  abbrev pub Keeps : {A : Type 0} → Step F T A → Type 0
  Keeps m = (s : Store F T) → P s → P (m s).0

  abbrev IsKept : {A : Type 0} → Store F T × Result A → Type 0
  IsKept (s, ok a) = Unit
  IsKept (s, err x) = P s

  -- A step that keeps a property at least when it raises.
  abbrev pub Spares : {A : Type 0} → Step F T A → Type 0
  Spares m = (s : Store F T) → P s → IsKept (m s)

  Keeps-bind :
      {A B : Type 0} (m : Step F T A) (f : A → Step F T B)
      → Keeps m
      → ((a : A) → Keeps (f a))
      → Keeps (m >>= f)
  Keeps-bind {A} m f h k s p = go (m s) (h s p)
    where
      go : (out : Store F T × Result A) → P out.0 → P (((λ (x : Store F T). out) >>= f) s).0
      go (s1, ok a) q = k a s1 q
      go (s1, err x) q = q

  Spares-bind :
      {A B : Type 0} (m : Step F T A) (f : A → Step F T B)
      → Keeps m
      → ((a : A) → Spares (f a))
      → Spares (m >>= f)
  Spares-bind {A} m f h k s p = go (m s) (h s p)
    where
      go : (out : Store F T × Result A) → P out.0 → IsKept (((λ (x : Store F T). out) >>= f) s)
      go (s1, ok a) q = k a s1 q
      go (s1, err x) q = q

  Spares_lem :
      {A : Type 0} (m : Step F T A) (s s' : Store F T) (x : Exc)
      → Spares m
      → P s
      → m s ≡ (s', err x)
      → P s'
  Spares_lem m s s' x h p e = subst IsKept e (h s p)

module _ {F T : Type 0} ⦃d : Double F⦄ (w : World F T) where
  keep_table-Keeps :
      {A : Type 0} (P : Store F T → Type 0) (x : Result (A × ℕ)) (write : A → Store F T)
      (s : Store F T)
      → P s
      → ((table : A) → P (write table))
      → P (keep_table w x write s).0
  keep_table-Keeps P (err x) write s p k = p
  keep_table-Keeps P (ok (table, n)) write s p k = k table

  module _ (auto_state : Bool) (saved : Option (PipelineResult F)) where
    -- The saved result is this one.
    abbrev HasSaved : Store F T → Type 0
    HasSaved s = s.result ≡ saved

    -- The saved result is this one, and of a state directory of its own nothing is left.
    abbrev pub IsClean : Store F T → Type 0
    IsClean s = (s.result ≡ saved) × ((auto_state && s.state_dir) ≡ false)

    quarantine_stage-Keeps : (log : List (Message F)) → Keeps IsClean (quarantine_stage w log)
    unfolding quarantine_stage
    quarantine_stage-Keeps log s p = keep_table-Keeps IsClean _ _ s p λ table. p

    bronze_stage-Keeps : (log : List (Message F)) → Keeps IsClean (bronze_stage w log)
    unfolding bronze_stage
    bronze_stage-Keeps log s p = keep_table-Keeps IsClean _ _ s p λ table. p

    processing-Keeps :
        (log : List (Message F))
        → Keeps HasSaved (processor_stage w log >>= (λ metrics. windows_stage w metrics))
    unfolding processor_stage windows_stage
    processing-Keeps log =
        Keeps-bind HasSaved (processor_stage w log) (λ metrics. windows_stage w metrics) (λ s p. p)
          λ metrics s p. keep_table-Keeps HasSaved _ _ s p λ table. p

    reclaiming-Keeps :
        {A : Type 0} (m : Step F T A) → Keeps HasSaved m → Keeps IsClean (reclaiming w auto_state m)
    unfolding reclaiming
    reclaiming-Keeps m h s p = (h s p.0, gone auto_state _ p.1)
      where
        gone : (b k : Bool) → (b && s.state_dir) ≡ false → (b && (if b then false else k)) ≡ false
        gone true k e = refl
        gone false k e = refl

    marts_and_report-Spares :
        (summary : ReplaySummary) (b n : ℕ) → Spares IsClean (marts_and_report w summary b n)
    unfolding marts_and_report marts_stage report_stage
    marts_and_report-Spares summary b n =
        Spares-bind IsClean (marts_stage w) (λ m. report_stage w summary b n m) built λ m s p. tt
      where
        go :
            (s : Store F T) (x : Result (MartsResult × T))
            → IsClean s
            → let out : Store F T × Result MartsResult = elim x [
              | err e ↦ (s, err e)
              | ok (m, gold) ↦ (record s { gold = gold }, ok m)
            ] in
              IsClean out.0
        go s (err e) p = p
        go s (ok (m, gold)) p = p

        built : Keeps IsClean (marts_stage w)
        built s p =
            go s (build_marts w.tables (has_rows w s.bronze) (w.dbt s.bronze s.windows) true) p

    lake_stages-Spares :
        (summary : ReplaySummary) (log : List (Message F)) (landed : ℕ)
        → Spares IsClean (lake_stages w auto_state summary log landed)
    unfolding lake_stages windows_and_marts
    lake_stages-Spares summary log landed =
        Spares-bind IsClean (give (reconciled w landed summary)) _ (λ s p. p)
          λ checked.
            Spares-bind IsClean (bronze_stage w log)
              (λ b. windows_and_marts w auto_state summary log b) (bronze_stage-Keeps log)
              λ b.
                Spares-bind IsClean _ (λ n. marts_and_report w summary b n)
                  (reclaiming-Keeps _ (processing-Keeps log))
                  λ n. marts_and_report-Spares summary b n

  -- A run that raises, at whatever stage, leaves the saved result as it was, and with a state
  -- directory of its own that was not there before it leaves none behind.
  pub run_pipeline_failed :
      (settings : Settings) (uid : String) (fixture_exists : Bool)
      (lines : List (Result (RecordedMessage F))) (auto_state : Bool) (s s' : Store F T) (x : Exc)
      → run_pipeline w settings uid fixture_exists lines auto_state s ≡ (s', err x)
      → (auto_state && s.state_dir) ≡ false
      → (s'.result ≡ s.result) × ((auto_state && s'.state_dir) ≡ false)
  unfolding run_pipeline
  run_pipeline_failed settings uid fixture_exists lines auto_state s s' x e own =
      let clean = IsClean auto_state s.result in
      Spares_lem clean (run_pipeline w settings uid fixture_exists lines auto_state) s s' x
        (Spares-bind clean (give _) _ (λ s1 p. p)
          λ y.
            Spares-bind clean (quarantine_stage w y.1) (λ n. lake_stages w auto_state y.0 y.1 n)
              (quarantine_stage-Keeps auto_state s.result y.1)
              λ n. lake_stages-Spares auto_state s.result y.0 y.1 n)
        (refl, own) e
