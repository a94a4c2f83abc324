-- ===== src/Kafka/Reads.antt =====
-- How a consumer reads the messages of the broker: those of one partition in the order in which they
-- were produced; between partitions, and so between topics, it may take any.
use tickstream_streaming_lak.Prelude.{
  ◌≡◌, refl, ap, sym, ◌∙◌, Bool, true, false, List, [], ◌∷◌, ◌++◌, keep, keep-append, All,
  All-append, arith, inl, inr, Bool-cases,
}
use tickstream_streaming_lak.Prelude.Eq.{Eq, ◌==◌, string_eq, nat_eq, pair_eq}

module _ {A L : Type 0} ⦃eq : Eq L⦄ (lane : A → L) where
  -- A way to read a list, lane by lane in its order: at each step the first unread element of some
  -- lane is taken, until nothing is unread.
  pub data Reads : List A → List A → Type 0 where
    finished : Reads [] []
    take :
        (before : List A) (x : A) (after : List A) {out : List A}
        → All (λ y. (lane y == lane x) ≡ false) before
        → Reads (before ++ after) out
        → Reads (before ++ (x ∷ after)) (x ∷ out)

  All-split : (P : A → Type 0) (xs ys : List A) → All P (xs ++ ys) → All P xs × All P ys
  All-split P [] ys h = (tt, h)
  All-split P (x ∷ xs) ys (p, h) = let (l, r) = All-split P xs ys h in ((p, l), r)

  -- What holds of all elements holds of those that are read.
  pub All-Reads : (P : A → Type 0) {xs ys : List A} → Reads xs ys → All P xs → All P ys
  All-Reads P finished h = tt
  All-Reads P (take before x after ls r) h =
      let (hb, (hx, ha)) = All-split P before (x ∷ after) h in
      (hx, All-Reads P r (All-append P before after hb ha))

  module _ (test : A → Bool) (P : A → Type 0)
      (one_lane : (x y : A)
        → P x
        → P y
        → test x ≡ true
        → test y ≡ true
        → (lane x == lane y) ≡ true) where
    none_before :
        (x : A) (before : List A)
        → P x
        → test x ≡ true
        → All P before
        → All (λ y. (lane y == lane x) ≡ false) before
        → keep test before ≡ []
    none_before x [] p h ps ls = refl
    none_before x (y ∷ before) p h (q, ps) (l, ls) = elim (Bool-cases (test y)) [
      | inl b ↦ absurd (ground (arith, one_lane y x q p b h, l))
      | inr b ↦ rw b (none_before x before p h ps ls)
    ]

    -- What lies in one lane is read in its order.
    pub keep-Reads : {xs ys : List A} → Reads xs ys → All P xs → keep test xs ≡ keep test ys
    keep-Reads finished h = refl
    keep-Reads (take before x after ls r) h =
        let (hb, (hx, ha)) = All-split P before (x ∷ after) h in
        let later = keep-Reads r (All-append P before after hb ha) in
        elim (Bool-cases (test x)) [
          | inl b ↦
              let nothing = none_before x before hx b hb ls in
              rw (b, keep-append test before (x ∷ after), nothing, b)
                (ap (λ l. x ∷ l)
                  (sym (ap (λ l. l ++ keep test after) nothing)
                    ∙ sym (keep-append test before after)
                    ∙ later))
          | inr b ↦
              rw (b, keep-append test before (x ∷ after), b)
                (sym (keep-append test before after) ∙ later)
        ]
