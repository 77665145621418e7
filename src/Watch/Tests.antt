-- ===== src/Watch/Tests.antt =====
-- A run of the monitor of state changes, and a witness.
use ingenialink.Base.{
  ℕ, ◌+◌, some, none, ok, err, efail, enotsup, List, [], ◌∷◌, get_or, ◌≡◌, refl, arith, ◌==◌,
  if◌then◌else◌,
}
use ingenialink.Port.{Net, Catalog}
use ingenialink.Pds.{nrdy, disabled, enabled, state_decode, flags_decode}
use ingenialink.Watch.{Watch, first_states, checks, passes}
use ingenialink.Watch.Changes.{about, changes, answers, passes-changes}

-- A drive that answers the n-th read with the n-th word; 0 stands for a read that fails.
abbrev words : List ℕ
words = 0x240 ∷ 0x240 ∷ 0 ∷ 0x240 ∷ 0x637 ∷ 0x240 ∷ []

abbrev net : Net ℕ
net = record {
  read = λ subnode address sz w.
      let v = get_or words w 0 in (if v == 0 then err efail else ok v, w + 1);
  write = λ subnode address v sz confirmed extended w. (err enotsup, w);
  wait_write = λ subnode address v sz confirmed extended w. (err enotsup, w);
}

abbrev catalog : Catalog (Unit {0})
catalog = record { reg_get = λ d id subnode. err enotsup }

-- Two axes: the second is read at the second, fourth and sixth time.
two_axes : answers net catalog none 0 (passes 3 2) 0 ≡ ok 0x240 ∷ err efail ∷ ok 0x637 ∷ []
two_axes = refl

passes-changes_example :
    (m' : Watch ℕ) × (checks net catalog none
        (passes 3 2)
        (record { states = first_states; sw = 0; events = []; world = 0 })
      ≡ some m')
    × (about 1 m'.events ≡ changes 1 nrdy (answers net catalog none 0 (passes 3 2) 0))
passes-changes_example = passes-changes net catalog none 3 2 0 0 0 (omega arith) (omega arith)

told :
    changes 1 nrdy (answers net catalog none 0 (passes 3 2) 0)
    ≡ record { state = disabled; flags = 0; subnode = 1 }
      ∷ record { state = enabled; flags = 1; subnode = 1 }
      ∷ []
unfolding state_decode flags_decode
told = refl

abbrev steady : Net ℕ
steady = record net { read = λ subnode address sz w. (ok 0x240, w) }

-- A sixth axis has no last state.
sixth :
    checks steady catalog none
      (passes 1 6)
      (record { states = first_states; sw = 0; events = []; world = 0 })
    ≡ none
unfolding checks state_decode
sixth = refl
