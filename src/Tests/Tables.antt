-- ===== src/Tests/Tables.antt =====
-- The theorems on `FastHash` at a table of three places and two buckets.
use nat_tester.Base.{ℕ, false, List, [], ◌∷◌, some, ◌≡◌, refl, arith}
use nat_tester.FastHash.{insert, lookup, lookup_by_index}
use nat_tester.FastHash.History.{filled, lookup-filled, lookup_by_index-filled, insert-filled_full}

-- keys 1, 3 and 1 again, which share a bucket; the newest is first
abbrev three_pairs : List (ℕ × ℕ)
three_pairs = (1, 30) ∷ (3, 20) ∷ (1, 10) ∷ []

lookup-filled_example : lookup 1 (filled 3 2 three_pairs) ≡ some 30
lookup-filled_example = lookup-filled 3 2 three_pairs 1 (omega arith) (omega arith)

lookup_by_index-filled_example :
    lookup_by_index 0 (filled 3 2 three_pairs) ≡ (some (1, 10), filled 3 2 three_pairs)
lookup_by_index-filled_example =
    lookup_by_index-filled 3 2 three_pairs 0 (omega arith) (omega arith)

insert-filled_full_example : insert 5 50 (filled 3 2 three_pairs) ≡ (false, filled 3 2 three_pairs)
insert-filled_full_example = insert-filled_full 3 2 three_pairs 5 50 (omega arith) refl
