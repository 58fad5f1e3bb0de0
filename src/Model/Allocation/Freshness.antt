-- ===== src/Model/Allocation/Freshness.antt =====
-- What an allocated identifier is (`allocateHistoricalIDBounded` of
-- `internal/dkim2model/rotation.go`).
use opendkim_manage_go.Prelude.{
  ℕ, suc, zero, ◌≡◌, refl, Bool, true, false, List, ◌∷◌, Option, none, some, Text, contains, Result,
  ok, fail_if->>-eq-ok, Option-cases, ◌⊎◌, inl, inr, text_eq, arith,
}
use opendkim_manage_go.Prelude.Int.{ℤ, pos, leb_ℤ, pos_part}
use opendkim_manage_go.Model.Error.{Error, invalid}
use opendkim_manage_go.Model.Allocation.{
  Allocated, choose, candidate_of, allocate_within, allocate_historical_id_bounded,
}

choose-eq-ok :
    {A : Type 0} (u : Bool) (k : Option Bool) (next own : Result Error A) {a : A}
    → choose u k next own ≡ ok a
    → (next ≡ ok a) ⊎ ((u ≡ false) × (k ≡ some false) × (own ≡ ok a))
unfolding choose
choose-eq-ok true k next own h = inl h
choose-eq-ok false none next own h = cc
choose-eq-ok false (some true) next own h = inl h
choose-eq-ok false (some false) next own h = inr (refl, refl, h)

module _ {S : Type 0} (read_full : ℕ → S → Option (Text × S))
    (historical : Text → Option Bool) where
  -- Twelve bytes that the reader gives, after any that it gave before, and the reader after them.
  pub data Draws : S → Text → S → Type 0 where
    now :
        {reader reader' : S} {buffer : Text}
        → read_full 12 reader ≡ some (buffer, reader')
        → Draws reader buffer reader'
    later :
        {reader reader' last : S} {skipped buffer : Text}
        → read_full 12 reader ≡ some (skipped, reader')
        → Draws reader' buffer last
        → Draws reader buffer last

  -- An identifier that is neither used nor in the history, and is used from now on: the prefix with
  -- bytes that the reader gave last.
  pub record IsFresh (prefix : Text) (used : List Text) (reader : S) (a : Allocated S)
      : Type 0 where
    pub unused : contains used a.identifier ≡ false
    pub unhistorical : historical a.identifier ≡ some false
    pub now_used : a.used ≡ a.identifier ∷ used
    pub buffer : Text
    pub drawn : Draws reader buffer a.reader
    pub prefixed : a.identifier ≡ candidate_of prefix buffer

  allocate_within-IsFresh :
      (attempts : ℕ) (prefix : Text) (used : List Text) (reader : S) (a : Allocated S)
      → allocate_within read_full historical attempts prefix used reader ≡ ok a
      → IsFresh prefix used reader a
  unfolding allocate_within
  allocate_within-IsFresh zero prefix used reader a h = cc
  allocate_within-IsFresh (suc attempts) prefix used reader a h =
      elim (Option-cases (read_full 12 reader)) [
        | inl e ↦ absurd (ground (arith, e, h))
        | inr ((buffer, reader'), e) ↦
            let c = candidate_of prefix buffer in
            elim (choose-eq-ok (contains used c) (historical c) _ _
              (rw (e, allocate_within) at h)) [
                | inl next ↦
                    let i = allocate_within-IsFresh attempts prefix used reader' a next in
                    record {
                      unused = i.unused;
                      unhistorical = i.unhistorical;
                      now_used = i.now_used;
                      buffer = i.buffer;
                      drawn = Draws.later e i.drawn;
                      prefixed = i.prefixed;
                    }
                | inr (u, k, own) ↦
                    let same : record { identifier = c; used = c ∷ used; reader = reader' } ≡ a =
                      ground (arith, own) in
                    rw (← same) (record {
                      unused = u;
                      unhistorical = k;
                      now_used = refl;
                      buffer = buffer;
                      drawn = Draws.now e;
                      prefixed = refl;
                    })
              ]
      ]

  -- An identifier that `allocateHistoricalIDBounded` returns was not used and is not in the history;
  -- it is the prefix with the twelve bytes that the reader gave last, in hexadecimal, and is used from
  -- now on.
  pub allocate_historical_id_bounded-IsFresh :
      (prefix : Text) (reader : S) (used : List Text) (attempts : ℤ) (a : Allocated S)
      → allocate_historical_id_bounded read_full historical prefix reader used attempts ≡ ok a
      → IsFresh prefix used reader a
  unfolding allocate_historical_id_bounded
  allocate_historical_id_bounded-IsFresh prefix reader used attempts a h =
      let (_, k) = fail_if->>-eq-ok (leb_ℤ attempts (pos 0)) invalid _ h in
      allocate_within-IsFresh (pos_part attempts) prefix used reader a k
