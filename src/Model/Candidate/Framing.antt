-- ===== src/Model/Candidate/Framing.antt =====
-- The framing that `internal/dkim2model/candidate.go` writes to the hash: what was written, and what
-- follows it, can be told from the bytes.
use opendkim_manage_go.Prelude.{
  ℕ, ◌/◌, ◌%◌, ◌<◌, ◌≡◌, refl, sym, ap, ap₂, ◌∙◌, List, [], ◌∷◌, ◌++◌, Option, none, some, Text,
  length, length-map, All, map, arith,
}
use opendkim_manage_go.Prelude.Lists.Keep.{append_assoc}
use opendkim_manage_go.Model.Candidate.{
  put_uint32, write_count, write_uint64, write_framed, write_nullable, write_each, write_rows,
}

-- Two writings that begin the same bytes are of one value, and the bytes behind them are the same.
abbrev pub IsPrefixCode : {A : Type 0} → (A → Type 0) → (A → Text) → Type 0
IsPrefixCode {A} Small write =
    (x y : A) (s t : Text) → Small x → Small y → write x ++ s ≡ write y ++ t → (x ≡ y) × (s ≡ t)

-- A text whose length four bytes can hold.
abbrev pub IsShort : Text → Type 0
IsShort t = length t < 4294967296

abbrev pub IsShortOption : Option Text → Type 0
IsShortOption none = Unit {0}
IsShortOption (some t) = IsShort t

put_uint32-cancel :
    (m n : ℕ) (s t : Text)
    → m < 4294967296
    → n < 4294967296
    → put_uint32 m ++ s ≡ put_uint32 n ++ t
    → (m ≡ n) × (s ≡ t)
unfolding put_uint32
put_uint32-cancel m n s t p q h =
    let a : m / 16777216 % 256 ≡ n / 16777216 % 256 = ground (arith, h) in
    let b : m / 65536 % 256 ≡ n / 65536 % 256 = ground (arith, h) in
    let c : m / 256 % 256 ≡ n / 256 % 256 = ground (arith, h) in
    let d : m % 256 ≡ n % 256 = ground (arith, h) in
    (omega (arith, a, b, c, d, p, q), ground (arith, h))

pub write_uint64-cancel : IsPrefixCode (λ n. n < 18446744073709551616) write_uint64
unfolding write_uint64
write_uint64-cancel m n s t p q h =
    let low : ℕ → Text = λ k. put_uint32 (k % 4294967296) in
    let split =
      sym (append_assoc (put_uint32 (m / 4294967296)) (low m) s)
      ∙ (h ∙ append_assoc (put_uint32 (n / 4294967296)) (low n) t) in
    let (high, rest) =
      put_uint32-cancel (m / 4294967296) (n / 4294967296) (low m ++ s) (low n ++ t)
        (omega (arith, p)) (omega (arith, q)) split in
    let (lower, r) =
      put_uint32-cancel (m % 4294967296) (n % 4294967296) s t (omega arith) (omega arith) rest in
    (omega (arith, high, lower), r)

pub append_cancel : (x y s t : Text) → length x ≡ length y → x ++ s ≡ y ++ t → (x ≡ y) × (s ≡ t)
append_cancel [] [] s t l h = (refl, h)
append_cancel [] (b ∷ y) s t l h = ground (arith, l)
append_cancel (a ∷ x) [] s t l h = ground (arith, l)
append_cancel (a ∷ x) (b ∷ y) s t l h =
    let (e, r) = append_cancel x y s t (omega (arith, l)) (ground (arith, h)) in
    let first : a ≡ b = ground (arith, h) in (ap₂ (λ u v. u ∷ v) first e, r)

write_count-cancel : IsPrefixCode (λ n. n < 4294967296) write_count
unfolding write_count
write_count-cancel m n s t p q h =
    let (e, r) =
      put_uint32-cancel (m % 4294967296) (n % 4294967296) s t (omega arith) (omega arith) h in
    (omega (arith, e, p, q), r)

pub write_framed-cancel : IsPrefixCode IsShort write_framed
unfolding write_framed
write_framed-cancel x y s t p q h =
    let split =
      sym (append_assoc (write_count (length x)) x s)
      ∙ (h ∙ append_assoc (write_count (length y)) y t) in
    let (e, r) = write_count-cancel (length x) (length y) (x ++ s) (y ++ t) p q split in
    append_cancel x y s t e r

pub write_nullable-cancel : IsPrefixCode IsShortOption write_nullable
unfolding write_nullable
write_nullable-cancel none none s t p q h = (refl, ground (arith, h))
write_nullable-cancel none (some y) s t p q h = ground (arith, h)
write_nullable-cancel (some x) none s t p q h = ground (arith, h)
write_nullable-cancel (some x) (some y) s t p q h =
    let (e, r) = write_framed-cancel x y s t p q (ground (arith, h)) in (ap (λ u. some u) e, r)

-- A writing that can be read back where its value is small.
pub record PrefixCode (A : Type 0) : Type 1 where
  pub IsSmall : A → Type 0
  pub write : A → Text
  pub cancel : IsPrefixCode IsSmall write

abbrev pub framed : PrefixCode Text
framed = record { IsSmall = IsShort; write = write_framed; cancel = write_framed-cancel }

abbrev pub nullable : PrefixCode (Option Text)
nullable = record {
  IsSmall = IsShortOption;
  write = write_nullable;
  cancel = write_nullable-cancel;
}

pub both-cancel :
    {A B : Type 0} (c : PrefixCode A) (d : PrefixCode B)
    → IsPrefixCode (λ (v : A × B). c.IsSmall v.0 × d.IsSmall v.1) (λ v. c.write v.0 ++ d.write v.1)
both-cancel c d (a, b) (a', b') s t (p, q) (p', q') h =
    let split =
      sym (append_assoc (c.write a) (d.write b) s)
      ∙ (h ∙ append_assoc (c.write a') (d.write b') t) in
    let (e, rest) = c.cancel a a' (d.write b ++ s) (d.write b' ++ t) p p' split in
    let (f, r) = d.cancel b b' s t q q' rest in (ap₂ (λ u v. (u, v)) e f, r)

-- One writing behind the other.
abbrev pub both : {A B : Type 0} → PrefixCode A → PrefixCode B → PrefixCode (A × B)
both c d = record {
  IsSmall = λ v. c.IsSmall v.0 × d.IsSmall v.1;
  write = λ v. c.write v.0 ++ d.write v.1;
  cancel = both-cancel c d;
}

write_each-cancel :
    {A : Type 0} (c : PrefixCode A) (xs ys : List A) (s t : Text)
    → length xs ≡ length ys
    → All c.IsSmall xs
    → All c.IsSmall ys
    → write_each c.write xs ++ s ≡ write_each c.write ys ++ t
    → (xs ≡ ys) × (s ≡ t)
unfolding write_each
write_each-cancel c [] [] s t l p q h = (refl, h)
write_each-cancel c [] (y ∷ ys) s t l p q h = ground (arith, l)
write_each-cancel c (x ∷ xs) [] s t l p q h = ground (arith, l)
write_each-cancel c (x ∷ xs) (y ∷ ys) s t l p q h =
    let split =
      sym (append_assoc (c.write x) (write_each c.write xs) s)
      ∙ (h ∙ append_assoc (c.write y) (write_each c.write ys) t) in
    let (e, rest) =
      c.cancel x y (write_each c.write xs ++ s) (write_each c.write ys ++ t) p.0 q.0 split in
    let (f, r) = write_each-cancel c xs ys s t (omega (arith, l)) p.1 q.1 rest in
    (ap₂ (λ u v. u ∷ v) e f, r)

pub write_rows-cancel :
    {A : Type 0} (c : PrefixCode A)
    → IsPrefixCode
        (λ (xs : List A). (length xs < 4294967296) × All c.IsSmall xs)
        (write_rows c.write)
unfolding write_rows
write_rows-cancel c xs ys s t (n, p) (k, q) h =
    let split =
      sym (append_assoc (write_count (length xs)) (write_each c.write xs) s)
      ∙ (h ∙ append_assoc (write_count (length ys)) (write_each c.write ys) t) in
    let (l, rest) =
      write_count-cancel (length xs) (length ys) (write_each c.write xs ++ s)
        (write_each c.write ys ++ t) n k split in
    write_each-cancel c xs ys s t l p q rest

-- A count of rows, and each row.
abbrev pub rows_of : {A : Type 0} → PrefixCode A → PrefixCode (List A)
rows_of c = record {
  IsSmall = λ xs. (length xs < 4294967296) × All c.IsSmall xs;
  write = write_rows c.write;
  cancel = write_rows-cancel c;
}

write_each-map :
    {R A : Type 0} (facts : R → A) (write : A → Text) (rows : List R)
    → write_each (λ r. write (facts r)) rows ≡ write_each write (map facts rows)
unfolding write_each
write_each-map facts write [] = refl
write_each-map facts write (r ∷ rows) =
    ap (λ t. write (facts r) ++ t) (write_each-map facts write rows)

-- Rows are written by the facts of each.
pub write_rows-map :
    {R A : Type 0} (facts : R → A) (write : A → Text) (rows : List R)
    → write_rows (λ r. write (facts r)) rows ≡ write_rows write (map facts rows)
unfolding write_rows
write_rows-map facts write rows =
    ap₂ (λ n t. write_count n ++ t) (sym (length-map facts rows)) (write_each-map facts write rows)
