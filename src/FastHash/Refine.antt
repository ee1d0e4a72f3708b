-- ===== src/FastHash/Refine.antt =====
-- The promise of a `FastHash` that is only inserted into: it is the list of its pairs, newest
-- first, of at most FSIZE pairs.
use nat_tester.Base.{
  ℕ, zero, suc, ◌+◌, ◌%◌, ◌≤◌, ◌<◌, ◌≡◌, ◌≢◌, refl, sym, ap, ◌∙◌, true, false, List, [], ◌∷◌,
  Option, none, some, length, get_or, ◌==◌, if◌then◌else◌, arith, replicate, length-replicate,
  ℕ_discrete, ==_refl, ne→==_false, dec_lt, le→leb, lt→leb_false,
}
use nat_tester.FastHash.{Table, lookup, insert, fast_hash, lookup_by_index, linked_from, first_node}
use nat_tester.FastHash.Chains.{All, Distinct, Chain, upto}
use nat_tester.FastHash.Laws.{
  Entry, first, Holds, IsIndexed, IsStored, insert-Holds, insert_full, lookup-first,
}

get_or-replicate {ℓ} : {A : Type ℓ} (n i : ℕ) (a : A) → get_or (replicate n a) i a ≡ a
get_or-replicate zero i a = refl
get_or-replicate (suc n) zero a = refl
get_or-replicate (suc n) (suc i) a = get_or-replicate n i a

length-linked_from : (x n : ℕ) → length (linked_from x n) ≡ n
length-linked_from x zero = refl
length-linked_from x (suc zero) = refl
length-linked_from x (suc (suc n)) = ap suc (length-linked_from (x + 1) (suc n))

length-upto : (x n : ℕ) → length (upto x n) ≡ n
length-upto x zero = refl
length-upto x (suc n) = ap suc (length-upto (x + 1) n)

Distinct-upto : (x n : ℕ) → Distinct (upto x n)
Distinct-upto x zero = tt
Distinct-upto x (suc n) = (above x (x + 1) n (omega arith), Distinct-upto (x + 1) n)
  where
    above : (x y n : ℕ) → x < y → All (λ z. x ≢ z) (upto y n)
    above x y zero h = tt
    above x y (suc n) h = (omega arith, above x (y + 1) n (omega arith))

-- Node x + i of the free list that `Reset` makes from node x on.
linked_from_at :
    (x n i : ℕ)
    → i < n
    → get_or (linked_from x n) i none ≡ (if suc i == n then none else some (x + i + 1))
linked_from_at x zero i h = absurd (omega arith)
linked_from_at x (suc zero) zero h = refl
linked_from_at x (suc zero) (suc i) h = absurd (omega arith)
linked_from_at x (suc (suc n)) zero h = ground arith
linked_from_at x (suc (suc n)) (suc i) h = ground (arith, linked_from_at (x + 1) (suc n) i)

Chain-upto :
    (fsize x n : ℕ) (head : Option ℕ)
    → x + n ≡ fsize
    → head ≡ (if n == 0 then none else some x)
    → Chain (linked_from 0 fsize) head (upto x n)
Chain-upto fsize x zero head e h = h
Chain-upto fsize x (suc n) head e h = (
  ground arith,
  omega (arith, length-linked_from 0 fsize),
  Chain-upto fsize (x + 1) n _ (omega arith)
      (ground (arith, linked_from_at 0 fsize x (omega arith))),
)

module _ {V : Type 0} where
  -- the value last inserted under a key
  abbrev pub newest : ℕ → List (ℕ × V) → Option V
  newest key [] = none
  newest key (p ∷ pairs) = if p.0 == key then some p.1 else newest key pairs

  -- the pair inserted when `i` others had been
  abbrev pub inserted_at : ℕ → List (ℕ × V) → Option (ℕ × V)
  inserted_at i [] = none
  inserted_at i (p ∷ pairs) = if i == length pairs then some p else inserted_at i pairs

  abbrev strip : List (Entry V) → List (ℕ × V)
  strip [] = []
  strip (e ∷ log) = (e.1, e.2) ∷ strip log

  -- `t` holds `pairs`, newest first.
  pub record Represents (t : Table V) (pairs : List (ℕ × V)) : Type 0 where
    pub log : List (Entry V)
    pub free : List ℕ
    pub holds : Holds t log free
    pub same : strip log ≡ pairs

  -- A table that has just been made holds nothing.
  pub fast_hash-Represents : (fsize tsize : ℕ) → 0 < tsize → Represents (fast_hash fsize tsize) []
  unfolding fast_hash
  fast_hash-Represents fsize tsize pos = record {
    log = [];
    free = upto 0 fsize;
    holds = record {
      columns = pos;
      nodes_size = length-replicate fsize none;
      next_size = length-linked_from 0 fsize;
      lookup_size = length-replicate tsize none;
      index_size = length-replicate fsize none;
      size = refl;
      count = omega (arith, length-upto 0 fsize);
      stored = tt;
      linked = λ b lt. get_or-replicate tsize b none;
      free_linked =
          Chain-upto fsize 0 fsize (first_node fsize) (omega arith) (first_node_lem fsize);
      distinct = Distinct-upto 0 fsize;
      apart = All_nothing (upto 0 fsize);
      valid = refl;
      start = refl;
      indexed = tt;
    };
    same = refl;
  }
    where
      first_node_lem : (n : ℕ) → first_node n ≡ (if n == 0 then none else some 0)
      first_node_lem zero = refl
      first_node_lem (suc n) = ground arith

      All_nothing : (xs : List ℕ) → All (λ x. Unit {0}) xs
      All_nothing [] = tt
      All_nothing (x ∷ xs) = (tt, All_nothing xs)

  length-strip : (log : List (Entry V)) → length (strip log) ≡ length log
  length-strip [] = refl
  length-strip (e ∷ log) = ap suc (length-strip log)

  -- A table holds as many pairs as `Size` says, and at most FSIZE.
  pub size-Represents :
      (t : Table V) (pairs : List (ℕ × V))
      → Represents t pairs
      → (t.size ≡ length pairs) × (length pairs ≤ t.fsize)
  size-Represents t pairs r =
      let e : length r.log ≡ length pairs = sym (length-strip r.log) ∙ ap length r.same in
      (omega (arith, r.holds.size), omega (arith, r.holds.count))

  -- `Insert` puts the pair in front of the others while there is room, and otherwise returns -1
  -- and changes nothing.
  pub insert-Represents :
      (t : Table V) (pairs : List (ℕ × V)) (key : ℕ) (value : V)
      → Represents t pairs
      → (length pairs < t.fsize
          → ((insert key value t).0 ≡ true)
            × Represents (insert key value t).1 ((key, value) ∷ pairs))
        × (t.fsize ≤ length pairs → insert key value t ≡ (false, t))
  insert-Represents t pairs key value r = go r.free r.holds
    where
      go :
          (free : List ℕ)
          → Holds t r.log free
          → (length pairs < t.fsize
              → ((insert key value t).0 ≡ true)
                × Represents (insert key value t).1 ((key, value) ∷ pairs))
            × (t.fsize ≤ length pairs → insert key value t ≡ (false, t))
      go [] h = (
        λ lt. absurd (omega (arith, h.count, length-strip r.log, ap (length {A = ℕ × V}) r.same)),
        λ le. insert_full t r.log key value h,
      )
      go (n ∷ free) h =
          let (ok, after) = insert-Holds t r.log n free key value h in
          (
            λ lt. (
              ok,
              record {
                log = (n, key, value) ∷ r.log;
                free = free;
                holds = after;
                same = ap (λ ps. (key, value) ∷ ps) r.same;
              },
            ),
            λ le.
                absurd (omega (arith, h.count, length-strip r.log, ap (length {A = ℕ × V}) r.same)),
          )

  first-strip : (key : ℕ) (log : List (Entry V)) → first key log ≡ newest key (strip log)
  first-strip key [] = refl
  first-strip key (e ∷ log) = ground (arith, first-strip key log)

  -- `Lookup` finds the value last inserted under the key: a second insertion under a key hides
  -- the first.
  pub lookup-newest :
      (t : Table V) (pairs : List (ℕ × V)) (key : ℕ)
      → Represents t pairs
      → lookup key t ≡ newest key pairs
  lookup-newest t pairs key r =
      lookup-first t r.log r.free key r.holds ∙ first-strip key r.log ∙ ap (newest key) r.same

  item_at :
      (t : Table V) (log : List (Entry V)) (i : ℕ)
      → IsStored t.nodes log
      → IsIndexed t.indexlist log
      → i < length log
      → (n : ℕ) × (get_or t.indexlist i none ≡ some n)
        × (get_or t.nodes n none ≡ inserted_at i (strip log))
  item_at t [] i st ix h = elim h [ ]
  item_at t (e ∷ log) i st ix h = elim (ℕ_discrete i (length log)) [
    | yes p ↦ (e.0, rw p ix.0, rw (p, length-strip log, ==_refl (length log)) st.0)
    | no ne ↦
        let (n, cell, node) = item_at t log i st.1 ix.1 (omega arith) in
        (n, cell, rw (length-strip log, ne→==_false i (length log) ne) node)
  ]

  lookup_by_index-cell :
      (t : Table V) (i n : ℕ) (item : Option (ℕ × V))
      → t.index_valid ≡ true
      → t.index_start ≡ 0
      → i < t.size
      → t.size ≤ t.fsize
      → get_or t.indexlist i none ≡ some n
      → get_or t.nodes n none ≡ item
      → lookup_by_index i t ≡ (item, t)
  unfolding lookup_by_index
  lookup_by_index-cell t i n item valid start inside room cell node =
      let at : (t.index_start + i) % t.fsize ≡ i = grind arith in
      simp (valid, at, cell, node, lt→leb_false _ _ inside)

  lookup_by_index-beyond : (t : Table V) (i : ℕ) → t.size ≤ i → lookup_by_index i t ≡ (none, t)
  unfolding lookup_by_index
  lookup_by_index-beyond t i h = rw (le→leb _ _ h)

  inserted_at-beyond :
      (i : ℕ) (pairs : List (ℕ × V)) → length pairs ≤ i → inserted_at i pairs ≡ none
  inserted_at-beyond i [] h = refl
  inserted_at-beyond i (p ∷ pairs) h =
      rw (ne→==_false i (length pairs) (omega arith)) (inserted_at-beyond i pairs (omega arith))

  -- `LookupByIndex` gives the pairs in the order of their insertion, and changes nothing.
  pub lookup_by_index-inserted_at :
      (t : Table V) (pairs : List (ℕ × V)) (i : ℕ)
      → Represents t pairs
      → lookup_by_index i t ≡ (inserted_at i pairs, t)
  lookup_by_index-inserted_at t pairs i r = elim (dec_lt i t.size) [
    | yes inside ↦
        let h = r.holds in
        let (n, cell, node) = item_at t r.log i h.stored h.indexed (omega (arith, h.size)) in
        lookup_by_index-cell t i n (inserted_at i pairs) h.valid h.start inside
          (omega (arith, size-Represents t pairs r)) cell (node ∙ ap (inserted_at i) r.same)
    | no beyond ↦
        let (e, _) = size-Represents t pairs r in
        rw (inserted_at-beyond i pairs (omega arith)) (lookup_by_index-beyond t i (omega arith))
  ]
