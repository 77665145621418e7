-- ===== src/Emcy.antt =====
-- The emergencies of a servo, ingenialink/base/servo.c: `on_emcy` puts a code into a circular queue of
-- four cells, the inner loop of `emcy_subs_monitor` takes the codes out and calls the subscribers.
pub mod Queue
pub mod Runs
mod Tests
use ingenialink.Base.{
  ℕ, zero, suc, ◌+◌, ◌-◌, ◌%◌, ◌^◌, bit_and, Option, none, some, List, [], ◌∷◌, ◌++◌, get_or, set,
  ltb, ◌==◌, if◌then◌else◌,
}
use ingenialink.Subs.Servos.{Subscriber, Call, notify}

pub record Emcy : Type 0 where
  pub head : ℕ
  pub tail : ℕ
  pub sz : ℕ
  pub queue : List ℕ

abbrev pub emcy_queue_sz : ℕ
emcy_queue_sz = 4

-- Subtraction of `size_t`.
abbrev pub minus : ℕ → ℕ → ℕ
minus a b = (a + (2 ^ 64 - b)) % 2 ^ 64

unfoldable pub circ_cnt : ℕ → ℕ → ℕ → ℕ
circ_cnt head tail size = bit_and (minus head tail) (minus size 1)

unfoldable pub circ_space : ℕ → ℕ → ℕ → ℕ
unfolding circ_cnt
circ_space head tail size = circ_cnt tail (head + 1) size

unfoldable pub drop_oldest : Emcy → Emcy
unfolding circ_space
drop_oldest e =
    if circ_space e.head e.tail emcy_queue_sz == 0
    then record e { tail = bit_and (e.tail + 1) (emcy_queue_sz - 1) }
    else e

unfoldable pub push : ℕ → Emcy → Emcy
push code e = record e {
  queue = set e.queue e.head code;
  head = bit_and (e.head + 1) (emcy_queue_sz - 1);
}

unfoldable pub on_emcy : ℕ → Emcy → Emcy
unfolding drop_oldest push
on_emcy code e = push code (drop_oldest e)

-- One round of the loop up to its unlock, if there is a code.
unfoldable pub take_emcy : Emcy → Option (ℕ × Emcy)
unfolding circ_cnt
take_emcy e =
    if circ_cnt e.head e.tail e.sz == 0
    then none
    else some (get_or e.queue e.tail 0, record e { tail = bit_and (e.tail + 1) (minus e.sz 1) })

-- The loop when no emergency arrives meanwhile: the calls it makes, and the queue it leaves; `none` is
-- fuel that ran out.
unfoldable pub drain : ℕ → List Subscriber → Emcy → Option (List (Call ℕ) × Emcy)
unfolding take_emcy notify
drain zero subs e = none
drain (suc fuel) subs e = elim (take_emcy e) [
  | none ↦ some ([], e)
  | some (code, e1) ↦ elim (drain fuel subs e1) [
    | none ↦ none
    | some (calls, e2) ↦ some (notify code subs ++ calls, e2)
  ]
]
