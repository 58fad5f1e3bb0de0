-- ===== src/Model/Allocation/Success.antt =====
-- When `allocateHistoricalIDBounded` of `internal/dkim2model/rotation.go` returns an identifier.
use opendkim_manage_go.Prelude.{
  ℕ, suc, zero, ◌≡◌, ◌↔◌, refl, sym, ◌∙◌, Bool, true, false, List, ◌∷◌, Option, none, some, Text,
  contains, Result, ok, Option-cases, ◌⊎◌, inl, inr, text_eq, arith,
}
use opendkim_manage_go.Prelude.Int.{ℤ, pos, negsuc, leb_ℤ, pos_part}
use opendkim_manage_go.Model.Error.{Error}
use opendkim_manage_go.Model.Allocation.{
  Allocated, choose, candidate_of, allocate_within, allocate_historical_id_bounded,
}

module _ {S : Type 0} (read_full : ℕ → S → Option (Text × S))
    (historical : Text → Option Bool) where
  -- A candidate that is used, or is in the history.
  abbrev pub IsTaken : List Text → Text → Type 0
  IsTaken used c =
      (contains used c ≡ true) ⊎ ((contains used c ≡ false) × (historical c ≡ some true))

  -- Within so many attempts the reader gives a free candidate, behind candidates that are taken.
  pub data Finds (prefix : Text) (used : List Text) : ℕ → S → Type 0 where
    free :
        {attempts : ℕ} {reader reader' : S} (buffer : Text)
        → read_full 12 reader ≡ some (buffer, reader')
        → contains used (candidate_of prefix buffer) ≡ false
        → historical (candidate_of prefix buffer) ≡ some false
        → Finds prefix used (suc attempts) reader
    taken :
        {attempts : ℕ} {reader reader' : S} (buffer : Text)
        → read_full 12 reader ≡ some (buffer, reader')
        → IsTaken used (candidate_of prefix buffer)
        → Finds prefix used attempts reader'
        → Finds prefix used (suc attempts) reader

  module _ (prefix : Text) (used : List Text) where
    abbrev Succeeds : ℕ → S → Type 0
    Succeeds attempts reader =
        (a : Allocated S) × (allocate_within read_full historical attempts prefix used reader
          ≡ ok a)

    Succeeds-of_Finds :
        {attempts : ℕ} {reader : S} → Finds prefix used attempts reader → Succeeds attempts reader
    unfolding allocate_within choose
    Succeeds-of_Finds (Finds.free {reader' = r} buffer e u k) = (
      record {
        identifier = candidate_of prefix buffer;
        used = candidate_of prefix buffer ∷ used;
        reader = r;
      },
      rw (e, allocate_within, u, k) refl,
    )
    Succeeds-of_Finds (Finds.taken buffer e (inl t) f) =
        let (a, h) = Succeeds-of_Finds f in (a, rw (e, allocate_within, t) h)
    Succeeds-of_Finds (Finds.taken buffer e (inr (u, t)) f) =
        let (a, h) = Succeeds-of_Finds f in (a, rw (e, allocate_within, u, t) h)

    Finds-of_choose :
        (attempts : ℕ) (reader reader' : S) (buffer : Text) (own : Result Error (Allocated S))
        (a : Allocated S)
        → read_full 12 reader ≡ some (buffer, reader')
        → ((b : Allocated S)
            → allocate_within read_full historical attempts prefix used reader' ≡ ok b
            → Finds prefix used attempts reader')
        → (u : Bool) (k : Option Bool) → contains used (candidate_of prefix buffer) ≡ u
        → historical (candidate_of prefix buffer) ≡ k
        → choose u k (allocate_within read_full historical attempts prefix used reader') own ≡ ok a
        → Finds prefix used (suc attempts) reader
    unfolding choose
    Finds-of_choose attempts reader reader' buffer own a e ih true k eu ek h =
        Finds.taken buffer e (inl eu) (ih a h)
    Finds-of_choose attempts reader reader' buffer own a e ih false none eu ek h = cc
    Finds-of_choose attempts reader reader' buffer own a e ih false (some true) eu ek h =
        Finds.taken buffer e (inr (eu, ek)) (ih a h)
    Finds-of_choose attempts reader reader' buffer own a e ih false (some false) eu ek h =
        Finds.free buffer e eu ek

    Finds-of_Succeeds :
        (attempts : ℕ) (reader : S) (a : Allocated S)
        → allocate_within read_full historical attempts prefix used reader ≡ ok a
        → Finds prefix used attempts reader
    unfolding allocate_within
    Finds-of_Succeeds zero reader a h = cc
    Finds-of_Succeeds (suc attempts) reader a h = elim (Option-cases (read_full 12 reader)) [
      | inl e ↦ absurd (ground (arith, e, h))
      | inr ((buffer, reader'), e) ↦
          Finds-of_choose attempts reader reader' buffer _ a e (Finds-of_Succeeds attempts reader')
            (contains used (candidate_of prefix buffer)) (historical (candidate_of prefix buffer))
            refl refl (rw (e, allocate_within) at h)
    ]

    bounded_suc :
        (n : ℕ) (reader : S)
        → allocate_historical_id_bounded read_full historical prefix reader used (pos (suc n))
          ≡ allocate_within read_full historical (suc n) prefix used reader
    unfolding allocate_historical_id_bounded
    bounded_suc n reader = let e : leb_ℤ (pos (suc n)) (pos 0) ≡ false = ground arith in rw (e) refl

    no_attempt : {reader : S} → Finds prefix used 0 reader → ⊥
    no_attempt f = elim f [ ]

    -- `allocateHistoricalIDBounded` returns an identifier exactly if, within the given number of
    -- attempts, the reader gives a candidate that is neither used nor in the history, behind candidates
    -- that all are; no attempt is made for a number that is not positive.
    pub allocate_historical_id_bounded_iff :
        (attempts : ℤ) (reader : S)
        → ((a : Allocated S) × (allocate_historical_id_bounded read_full historical prefix reader
                used attempts
              ≡ ok a))
          ↔ Finds prefix used (pos_part attempts) reader
    unfolding allocate_historical_id_bounded
    allocate_historical_id_bounded_iff (negsuc n) reader =
        (λ h. absurd (ground (arith, h.1)), λ f. absurd (no_attempt f))
    allocate_historical_id_bounded_iff (pos zero) reader =
        (λ h. absurd (ground (arith, h.1)), λ f. absurd (no_attempt f))
    allocate_historical_id_bounded_iff (pos (suc n)) reader =
        let e = bounded_suc n reader in
        (
          λ h. Finds-of_Succeeds (suc n) reader h.0 (sym e ∙ h.1),
          λ f. let (a, h) = Succeeds-of_Finds f in (a, e ∙ h),
        )
