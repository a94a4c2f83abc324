-- ===== src/Lake/Poll/Laws.antt =====
-- What the poll loop of the sinks returns.
use tickstream_streaming_lak.Prelude.{
  ℕ, ◌+◌, ◌≡◌, refl, sym, ◌∙◌, Bool, true, false, Option, none, some, List, [], ◌∷◌, ◌++◌, length,
  ltb, leb, arith, if◌then◌else◌, inl, inr, Bool-cases, append_assoc, append-nil, All, map,
}
use tickstream_streaming_lak.Errors.{Result, ok, err, ◌>>=◌, Returns, Returns-bind, Returns-self}
use tickstream_streaming_lak.Lake.Poll.{
  Poll, drain, rows_of, IsDrained, IsPrompt, write_rows, delivered,
}

module _ {R : Type 0} (read : List ℕ → Result R) where
  stop : (polls : List Poll) (rows : List R) → IsDrained read polls rows rows
  stop polls rows = record {
    taken = [];
    rest = polls;
    fresh = [];
    split = refl;
    read_taken = refl;
    landed = sym (append-nil rows);
  }

  module _ (p : Poll) (polls : List Poll) (rows : List R) where
    silent :
        p.message ≡ none
        → (res : Result (List R)) → Returns (IsDrained read polls rows) res
        → Returns (IsDrained read (p ∷ polls) rows) res
    silent e (err x) h = tt
    silent e (ok out) h = record {
      taken = p ∷ h.taken;
      rest = h.rest;
      fresh = h.fresh;
      split = rw h.split;
      read_taken = rw (e, h.read_taken);
      landed = h.landed;
    }

    taken_one :
        {value : List ℕ} {row : R}
        → p.message ≡ some value
        → read value ≡ ok row
        → (res : Result (List R)) → Returns (IsDrained read polls (rows ++ (row ∷ []))) res
        → Returns (IsDrained read (p ∷ polls) rows) res
    taken_one e k (err x) h = tt
    taken_one {value} {row} e k (ok out) h = record {
      taken = p ∷ h.taken;
      rest = h.rest;
      fresh = row ∷ h.fresh;
      split = rw h.split;
      read_taken = rw (e, k, h.read_taken);
      landed = h.landed ∙ append_assoc rows (row ∷ []) h.fresh;
    }

  module _ (is_full : ℕ → Bool) (deadline idle : ℕ) where
    pub drain-IsDrained :
        (polls : List Poll) (idle_until : ℕ) (rows : List R)
        → Returns
            (IsDrained read polls rows)
            (drain read is_full deadline idle polls idle_until rows)
    unfolding drain
    drain-IsDrained [] idle_until rows = stop [] rows
    drain-IsDrained (p ∷ polls) idle_until rows = elim (Bool-cases (ltb p.checked deadline)) [
      | inr b ↦ rw (drain, b) (stop (p ∷ polls) rows)
      | inl b ↦ elim (Bool-cases (is_full (length rows))) [
        | inl f ↦ rw (drain, b, f) (stop (p ∷ polls) rows)
        | inr f ↦
            rw (drain, b, f) (go p.message refl (λ until out. drain-IsDrained polls until out))
      ]
    ]
      where
        go :
            (m : Option (List ℕ))
            → p.message ≡ m
            → ((until : ℕ) (out : List R)
                → Returns
                    (IsDrained read polls out)
                    (drain read is_full deadline idle polls until out))
            → Returns (IsDrained read (p ∷ polls) rows) (elim m [
              | none ↦ (elim (leb idle_until p.polled) [
                | true ↦ ok rows
                | false ↦ drain read is_full deadline idle polls idle_until rows
              ])
              | some value ↦ (do
                row ← read value
                drain read is_full deadline idle polls (p.polled + idle) (rows ++ (row ∷ [])))
            ])
        go none e ih = elim (Bool-cases (leb idle_until p.polled)) [
          | inl b ↦ rw b (stop (p ∷ polls) rows)
          | inr b ↦ rw b (silent p polls rows e _ (ih idle_until rows))
        ]
        go (some value) e ih =
            Returns-bind (λ row. read value ≡ ok row) _ (read value) _ (Returns-self (read value))
              λ row k. taken_one p polls rows e k _ (ih (p.polled + idle) (rows ++ (row ∷ [])))

  -- Nothing that arrives, nothing that is read.
  pub drain-silent :
      (is_full : ℕ → Bool) (deadline idle : ℕ) (polls : List Poll) (idle_until : ℕ) (rows : List R)
      → All (λ p. p.message ≡ none) polls
      → drain read is_full deadline idle polls idle_until rows ≡ ok rows
  unfolding drain
  drain-silent is_full deadline idle [] idle_until rows h = refl
  drain-silent is_full deadline idle (p ∷ polls) idle_until rows (e, h) =
      elim (Bool-cases (ltb p.checked deadline)) [
        | inr b ↦ rw (drain, b) refl
        | inl b ↦ elim (Bool-cases (is_full (length rows))) [
          | inl f ↦ rw (drain, b, f) refl
          | inr f ↦ elim (Bool-cases (leb idle_until p.polled)) [
            | inl q ↦ rw (drain, b, f, e, q) refl
            | inr q ↦
                rw (drain, b, f, e, q) (drain-silent is_full deadline idle polls idle_until rows h)
          ]
        ]
      ]

  pub settle :
      (rows : List R) (m : Result R) (rest : Result (List R)) (next : R → Result (List R))
      → ((row : R) → next row ≡ (rest >>= λ fresh. ok ((rows ++ (row ∷ [])) ++ fresh)))
      → (m >>= next)
        ≡ (m >>= (λ row. rest >>= λ fresh. ok (row ∷ fresh)) >>= λ fresh. ok (rows ++ fresh))
  settle rows (err x) rest next h = refl
  settle rows (ok row) (err x) next h = h row
  settle rows (ok row) (ok fresh) next h = rw (h row, append_assoc)

  -- Without a limit, and with rounds that are prompt, the loop reads every message.
  module _ (deadline idle : ℕ) where
    pub drain-prompt :
        (polls : List Poll) (idle_until : ℕ) (rows : List R)
        → IsPrompt deadline idle idle_until polls
        → drain read (λ n. false) deadline idle polls idle_until rows
          ≡ (rows_of read polls >>= λ fresh. ok (rows ++ fresh))
    unfolding drain
    drain-prompt [] idle_until rows h = rw append-nil
    drain-prompt (p ∷ polls) idle_until rows h =
        go p.message refl h (λ until out k. drain-prompt polls until out k)
      where
        go :
            (m : Option (List ℕ))
            → p.message ≡ m
            → IsPrompt deadline idle idle_until (p ∷ polls)
            → ((until : ℕ) (out : List R)
                → IsPrompt deadline idle until polls
                → drain read (λ n. false) deadline idle polls until out
                  ≡ (rows_of read polls >>= λ fresh. ok (out ++ fresh)))
            → drain read (λ n. false) deadline idle (p ∷ polls) idle_until rows
              ≡ (rows_of read (p ∷ polls) >>= λ fresh. ok (rows ++ fresh))
        go none e h ih =
            let (b, quiet) = rw e at h in
            let (q, k) = quiet in rw (drain, b, e, q) (ih idle_until rows k)
        go (some value) e h ih =
            let (b, k) = rw e at h in
            rw (drain, b, e)
              (settle rows (read value) (rows_of read polls) _ (λ row. ih (p.polled + idle) _ k))

  -- A table behind a sink that keeps it when nothing was read.
  abbrev pub HasRows : Bool → List Poll → List R → List R × ℕ → Type 0
  HasRows clear polls stored (table, n) =
      (rows : List R) × IsDrained read polls [] rows
      × (n ≡ length rows)
      × (table ≡ (if ltb 0 n then (if clear then [] else stored) ++ rows else stored))

  pub write_rows-HasRows :
      (clear : Bool) (polls : List Poll) (stored rows : List R)
      → IsDrained read polls [] rows
      → HasRows clear polls stored (write_rows clear stored rows)
  unfolding write_rows
  write_rows-HasRows clear polls stored [] v = ([], v, refl, refl)
  write_rows-HasRows clear polls stored (row ∷ rows) v = (row ∷ rows, v, refl, ground arith)

  pub write_rows-count :
      (clear : Bool) (stored rows : List R) → (write_rows clear stored rows).1 ≡ length rows
  unfolding write_rows
  write_rows-count clear stored [] = refl
  write_rows-count clear stored (row ∷ rows) = refl

  -- Messages that were encoded are read as what was encoded.
  pub rows_of-delivered :
      (encode : R → List ℕ) (polls : List Poll) (rows : List R)
      → delivered polls ≡ map encode rows
      → All (λ row. read (encode row) ≡ ok row) rows
      → rows_of read polls ≡ ok rows
  rows_of-delivered encode [] [] h k = refl
  rows_of-delivered encode [] (row ∷ rows) h k = cc
  rows_of-delivered encode (p ∷ polls) rows h k =
      go p.message rows h k refl (λ rest e l. rows_of-delivered encode polls rest e l)
    where
      go :
          (m : Option (List ℕ)) (rows : List R)
          → delivered (p ∷ polls) ≡ map encode rows
          → All (λ row. read (encode row) ≡ ok row) rows
          → p.message ≡ m
          → ((rest : List R)
              → delivered polls ≡ map encode rest
              → All (λ row. read (encode row) ≡ ok row) rest
              → rows_of read polls ≡ ok rest)
          → rows_of read (p ∷ polls) ≡ ok rows
      go none rows h k e ih = rw e (ih rows (rw e at h) k)
      go (some value) [] h k e ih = absurd (cc (rw e at h))
      go (some value) (row ∷ rows) h (l, k) e ih =
          let both : value ∷ delivered polls ≡ encode row ∷ map encode rows = rw e at h in
          let first : value ≡ encode row = cc in
          let others : delivered polls ≡ map encode rows = cc in
          rw (e, first, l, ih rows others k) refl
