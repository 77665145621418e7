-- ===== src/Refcnt/Tests.antt =====
-- Uses of a reference count, and a witness.
use ingenialink.Base.{true, some, none, List, [], ◌∷◌, ◌≡◌, refl, arith}
use ingenialink.Refcnt.{Use, retain, release, refcnt_create, use_all}
use ingenialink.Refcnt.Balance.{alive, Left, use_all-balance}

created : refcnt_create true true ≡ some (alive 1)
unfolding refcnt_create
created = refl

abbrev uses : List Use
uses = retain ∷ release ∷ retain ∷ release ∷ release ∷ []

use_all-balance_example : Left 3 3 (use_all uses (alive 1))
use_all-balance_example =
    use_all-balance uses 1
      (omega arith, (omega arith, (omega arith, (omega arith, (omega arith, tt))))) (omega arith)
      (omega arith)

-- A use after the last release is one of freed memory.
late : use_all (release ∷ retain ∷ []) (alive 1) ≡ none
unfolding use_all
late = refl
