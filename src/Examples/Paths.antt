-- ===== src/Examples/Paths.antt =====
-- Paths at concrete inputs: an id is written in base 1, as letters that a last one ends.
use almighty_core.Prelude.{
  ℕ, zero, suc, ◌≡◌, refl, true, Option, none, some, [], ◌∷◌, ◌==◌, all, if◌then◌else◌,
}
use almighty_core.Prelude.Texts.{Text}
use almighty_core.Field.Value.{ok}
use almighty_core.Path.{UuidPackage, is_uuid_byte, value, bytes, scan}
use almighty_core.Path.Stored.{scan-value}

to_base1 : ℕ → Text
to_base1 zero = 98 ∷ []
to_base1 (suc n) = 97 ∷ to_base1 n

abbrev one_more : Option ℕ → Option ℕ
one_more none = none
one_more (some n) = some (suc n)

from_base1 : Text → Option ℕ
from_base1 [] = none
from_base1 (c ∷ s) = let rest = from_base1 s in if c == 98 then some 0 else one_more rest

from_to : (n : ℕ) → from_base1 (to_base1 n) ≡ some n
unfolding to_base1 from_base1
from_to zero = refl
from_to (suc n) = rw (from_to n) refl

base1_bytes : (n : ℕ) → all is_uuid_byte (to_base1 n) ≡ true
unfolding to_base1
base1_bytes zero = refl
base1_bytes (suc n) = base1_bytes n

abbrev base1 : UuidPackage
base1 = record {
  to_string = to_base1;
  from_string = from_base1;
  from_string-to_string = from_to;
  from_string-empty = (unfold from_base1 in refl);
  to_string-bytes = base1_bytes;
}

scan-value_example : scan base1 (bytes (value base1 (4 ∷ 2 ∷ []))) ≡ ok (4 ∷ 2 ∷ [])
scan-value_example = scan-value base1 (4 ∷ 2 ∷ [])
