-- ===== src/State/Tally.antt =====
-- `int` and `str` of Python as a concrete pair, for runs of the code that uses them.
use snulbug.Base.{ℕ, zero, suc, ◌≡◌, refl, ap, String, Option, none, some}
use snulbug.Base.Int.{ℤ, pos, negsuc}
use snulbug.State.{IntText}

-- Integers as texts of their number's length: 0, -1, 1, -2, ... have the lengths 1, 2, 3, 4, ...
abbrev pub tally : ℕ → String
tally zero = String.[]
tally (suc n) = String.◌∷◌ "1" (tally n)

abbrev twice : ℕ → ℕ
twice zero = zero
twice (suc n) = suc (suc (twice n))

abbrev pub code : ℤ → ℕ
code (pos n) = suc (twice n)
code (negsuc n) = suc (suc (twice n))

abbrev outward : ℤ → ℤ
outward (pos n) = pos (suc n)
outward (negsuc n) = negsuc (suc n)

abbrev pub size : String → ℕ
size String.[] = zero
size (String.◌∷◌ c s) = suc (size s)

abbrev further : Option ℤ → Option ℤ
further none = none
further (some n) = some (outward n)

abbrev pub decode : ℕ → Option ℤ
decode zero = none
decode (suc zero) = some (pos 0)
decode (suc (suc zero)) = some (negsuc 0)
decode (suc (suc (suc n))) = further (decode (suc n))

pub size-tally : (n : ℕ) → size (tally n) ≡ n
size-tally zero = refl
size-tally (suc n) = ap (λ k. suc k) (size-tally n)

pub decode-code : (n : ℤ) → decode (code n) ≡ some n
decode-code (pos zero) = refl
decode-code (pos (suc n)) = ap (further) (decode-code (pos n))
decode-code (negsuc zero) = refl
decode-code (negsuc (suc n)) = ap (further) (decode-code (negsuc n))

abbrev pub python : IntText
python = record {
  int = λ s. decode (size s);
  str = λ n. tally (code n);
  int-str = λ n. rw (size-tally (code n)) (decode-code n);
  int_zero = refl;
}
