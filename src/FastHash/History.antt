-- ===== src/FastHash/History.antt =====
-- A `FastHash` that is made and then filled by `Insert` alone, as `CStunMessageReader` does.
use nat_tester.Base.{ℕ, ◌≤◌, ◌<◌, ◌≡◌, refl, ◌∙◌, false, List, [], ◌∷◌, length, arith}
use nat_tester.FastHash.{Table, fast_hash, insert, lookup, lookup_by_index}
use nat_tester.FastHash.Laws.{fsize-insert}
use nat_tester.FastHash.Refine.{
  Represents, newest, inserted_at, fast_hash-Represents, insert-Represents, lookup-newest,
  lookup_by_index-inserted_at,
}

module _ {V : Type 0} where
  -- the table after the pairs, newest first, were inserted into a new one
  abbrev pub filled : ℕ → ℕ → List (ℕ × V) → Table V
  filled fsize tsize [] = fast_hash fsize tsize
  filled fsize tsize (p ∷ pairs) = (insert p.0 p.1 (filled fsize tsize pairs)).1

  fsize-filled : (fsize tsize : ℕ) (pairs : List (ℕ × V)) → (filled fsize tsize pairs).fsize ≡ fsize
  unfolding fast_hash
  fsize-filled fsize tsize [] = refl
  fsize-filled fsize tsize (p ∷ pairs) =
      fsize-insert p.0 p.1 (filled fsize tsize pairs) ∙ fsize-filled fsize tsize pairs

  filled-Represents :
      (fsize tsize : ℕ) (pairs : List (ℕ × V))
      → 0 < tsize
      → length pairs ≤ fsize
      → Represents (filled fsize tsize pairs) pairs
  filled-Represents fsize tsize [] pos room = fast_hash-Represents fsize tsize pos
  filled-Represents fsize tsize (p ∷ pairs) pos room =
      ((insert-Represents (filled fsize tsize pairs) pairs p.0 p.1
          (filled-Represents fsize tsize pairs pos (omega arith))).0
        (omega (arith, fsize-filled fsize tsize pairs))).1

  -- After the insertion of at most FSIZE pairs into a new table with at least one bucket,
  -- `Lookup` gives under each key the value that was inserted last under it, and nothing under a
  -- key that was not inserted.
  pub lookup-filled :
      (fsize tsize : ℕ) (pairs : List (ℕ × V)) (key : ℕ)
      → 0 < tsize
      → length pairs ≤ fsize
      → lookup key (filled fsize tsize pairs) ≡ newest key pairs
  lookup-filled fsize tsize pairs key pos room =
      lookup-newest (filled fsize tsize pairs) pairs key
        (filled-Represents fsize tsize pairs pos room)

  -- There `LookupByIndex` gives the pairs in the order of their insertion, nothing beyond them,
  -- and leaves the table as it is.
  pub lookup_by_index-filled :
      (fsize tsize : ℕ) (pairs : List (ℕ × V)) (i : ℕ)
      → 0 < tsize
      → length pairs ≤ fsize
      → lookup_by_index i (filled fsize tsize pairs)
        ≡ (inserted_at i pairs, filled fsize tsize pairs)
  lookup_by_index-filled fsize tsize pairs i pos room =
      lookup_by_index-inserted_at (filled fsize tsize pairs) pairs i
        (filled-Represents fsize tsize pairs pos room)

  -- A new table that was filled with FSIZE pairs refuses another one and is left as it is.
  pub insert-filled_full :
      (fsize tsize : ℕ) (pairs : List (ℕ × V)) (key : ℕ) (value : V)
      → 0 < tsize
      → length pairs ≡ fsize
      → insert key value (filled fsize tsize pairs) ≡ (false, filled fsize tsize pairs)
  insert-filled_full fsize tsize pairs key value pos full =
      (insert-Represents (filled fsize tsize pairs) pairs key value
          (filled-Represents fsize tsize pairs pos (omega arith))).1
        (omega (arith, fsize-filled fsize tsize pairs))
