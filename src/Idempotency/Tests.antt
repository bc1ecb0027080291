-- ===== src/Idempotency/Tests.antt =====
-- packages/ketjs/src/server/idem.ts: one key through its life.
use ketjs.Common.{true, false, ◌≡◌, refl, some, [], arith}
use ketjs.Idempotency.{IdemTable, done, claim, read, complete, release}
use ketjs.Idempotency.Protocol.{claim_exclusive, complete_final}

abbrev claimed_table : IdemTable
claimed_table = (claim 100 "k" "sales.place" 50 (some "d") []).0

claim_granted : (claim 100 "k" "sales.place" 50 (some "d") []).1 ≡ true
unfolding claim
claim_granted = refl

-- A released key may be claimed again.
released : (claim 101 "k" "sales.place" 50 (some "d") (release "k" claimed_table)).1 ≡ true
unfolding claim release
released = refl

claim_exclusive_example :
    claim 140 "k" "sales.place" 50 (some "d") claimed_table ≡ (claimed_table, false)
claim_exclusive_example =
    claim_exclusive 100 140 "k" "sales.place" "sales.place" 50 50 (some "d") (some "d") []
      claim_granted (omega arith)

complete_final_example :
    (read "k" (complete "k" "{}" claimed_table)
      ≡ some (record { state = done; result = some "{}"; digest = some "d" }))
    × (claim 9000 "k" "sales.place" 50 (some "d") (complete "k" "{}" claimed_table)
        ≡ (complete "k" "{}" claimed_table, false))
complete_final_example =
    complete_final 100 9000 "k" "sales.place" "sales.place" "{}" 50 50 (some "d") (some "d") []
      claim_granted
