-- ===== src/Metrics/Durations.antt =====
-- What `Snapshot` of internal/metrics/metrics.go tells of the durations recorded.
use mathlib.Core.List.{foldl}
use netdata_postgres_mcp.Base.{ℕ, ◌+◌, ◌/◌, ◌≡◌, refl, List, [], ◌∷◌, length, ◌==◌, false, arith}
use netdata_postgres_mcp.Metrics.{SyncDuration, record_duration, snapshot, global}

abbrev pub sum : List ℕ → ℕ
sum [] = 0
sum (n ∷ ns) = n + sum ns

abbrev last_of : ℕ → List ℕ → ℕ
last_of n [] = n
last_of n (m ∷ ms) = last_of m ms

abbrev pub recorded : SyncDuration → List ℕ → SyncDuration
recorded = foldl record_duration

recorded-fields :
    (d : SyncDuration) (ds : List ℕ)
    → ((recorded d ds).last ≡ last_of d.last ds)
      × ((recorded d ds).total ≡ d.total + sum ds)
      × ((recorded d ds).count ≡ d.count + length ds)
unfolding record_duration
recorded-fields d [] = (refl, omega arith, omega arith)
recorded-fields d (n ∷ ns) =
    let ih = recorded-fields (record_duration d n) ns in
    (ih.0, omega (arith, ih.1), omega (arith, ih.2))

-- After one or more durations are recorded, `Snapshot` returns the last one, their sum divided by
-- their number, rounded down, and their number.
pub snapshot-recorded :
    (n : ℕ) (ns : List ℕ)
    → snapshot (recorded global.collection_duration (n ∷ ns))
      ≡ (last_of n ns, sum (n ∷ ns) / length (n ∷ ns), length (n ∷ ns))
unfolding snapshot record_duration global
snapshot-recorded n ns =
    let f = recorded-fields (record { last = n; total = 0 + n; count = 0 + 1 }) ns in
    let some_count : ((recorded (record { last = n; total = 0 + n; count = 0 + 1 }) ns).count == 0)
        ≡ false =
      ground (arith, f.2) in
    rw (some_count, f.0, f.1, f.2) (ground arith)
