-- ===== src/EventLog/Tests.antt =====
-- Tests of the log: internal/eventlog.
use trade_execution_operatin.Common.{◌≡◌, refl, [], ◌∷◌}
use trade_execution_operatin.EventLog.{murmur2, hash_from, mix, mul32}

-- Two values of Kafka's own tests of its partitioner: the keys are "21" and "foobar".
murmur2_runs : murmur2 (50 ∷ 49 ∷ []) ≡ 3321034988
unfolding murmur2 hash_from mix mul32
murmur2_runs = refl

murmur2_block : murmur2 (102 ∷ 111 ∷ 111 ∷ 98 ∷ 97 ∷ 114 ∷ []) ≡ 3504634814
unfolding murmur2 hash_from mix mul32
murmur2_block = refl
