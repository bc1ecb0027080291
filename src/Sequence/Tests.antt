-- ===== src/Sequence/Tests.antt =====
-- packages/ketjs/src/server/sequence.ts: two callers of one sequence, and one alone.
use ketjs.Common.{ℕ, true, false, ◌≡◌, refl, some, [], ◌∷◌, lookup, template}
use ketjs.Sequence.{
  SequenceOptions, number, is_name, sequence_key, take_number, insert_next, move_next,
  peek_sequence_number, next_sequence_number,
}
use ketjs.Sequence.Steps.{Reach, begin, round, play}
use ketjs.Sequence.Numbers.{Reach-CountsTo, CountsTo}
use ketjs.Sequence.Call.{next_sequence_number_lem}

abbrev options : SequenceOptions
options = record { start = 0; shared = false; company = some "c1"; dry_run = false }

named : is_name true "sale.order_2" ≡ true
unfolding is_name
named = refl

unnamed : is_name true "sale..order" ≡ false
unfolding is_name
unnamed = refl

keyed : sequence_key "sale" options ≡ "c1\nsale"
unfolding sequence_key template
keyed = refl

-- The second caller read the table before the first one wrote.
raced : Reach "k" (("k", 7) ∷ [], 6 ∷ 5 ∷ [])
unfolding play take_number insert_next move_next
raced = round "k" 1 (some 5) (round "k" 1 (some 6) (round "k" 1 (some 5) (begin (("k", 5) ∷ []))))

Reach-CountsTo_example : (lookup {V = ℕ} "k" (("k", 7) ∷ []) ≡ some 7) × CountsTo 6 (5 ∷ [])
Reach-CountsTo_example = Reach-CountsTo raced

next_sequence_number_example :
    (next_sequence_number (λ _ u. u) "sale" (record options { dry_run = true }) [] ≡ ([], number 1))
    × (next_sequence_number (λ _ u. u) "sale" options [] ≡ (("c1\nsale", 2) ∷ [], number 1))
unfolding is_name sequence_key template peek_sequence_number
next_sequence_number_example = next_sequence_number_lem "sale" options [] refl
