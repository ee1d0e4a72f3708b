-- ===== src/FastHash.antt =====
-- all/fasthash.h: `FastHashBase` over the arrays of a `FastHash<K, V, FSIZE, TSIZE>`, for keys that
-- are unsigned numbers (their `FastHash_Hash` is the number itself).
-- A pointer to `_itemnodes[x]` is the number x, which is also its `index` field: `Reset` sets the
-- field once and nothing changes it. `none` is NULL, and in `nodes` and `indexlist` it is a cell
-- that has not been written since the arrays were made.
pub mod Chains
pub mod Laws
pub mod Refine
pub mod History
use nat_tester.Base.{
  ℕ, zero, suc, ◌+◌, ◌-◌, ◌%◌, Bool, true, false, not, ◌&&◌, ◌||◌, List, [], ◌∷◌, Option, none,
  some, get_elem?, get_or, set, replicate, ltb, leb, ◌==◌, if◌then◌else◌,
}

pub record Table {ℓ} (V : Type ℓ) : Type ℓ where
  pub fsize : ℕ
  pub tsize : ℕ
  pub nodes : List (Option (ℕ × V))
  -- `_itemnodes[x].pNext`
  pub next : List (Option ℕ)
  pub freelist : Option ℕ
  pub lookuptable : List (Option ℕ)
  pub indexlist : List (Option ℕ)
  pub index_valid : Bool
  pub index_start : ℕ
  pub size : ℕ

-- the free list of `Reset`: node x points to node x + 1, and the last to NULL
abbrev pub linked_from : ℕ → ℕ → List (Option ℕ)
linked_from x zero = []
linked_from x (suc zero) = none ∷ []
linked_from x (suc (suc n)) = some (x + 1) ∷ linked_from (x + 1) (suc n)

-- `_freelist = _itemnodes`, where there is a node
abbrev pub first_node : ℕ → Option ℕ
first_node zero = none
first_node (suc n) = some 0

-- does cell `i` of the index hold node `n`?
abbrev pub index_is : List (Option ℕ) → ℕ → ℕ → Bool
index_is indexlist i n = elim (get_or indexlist i none) [ none ↦ false | some m ↦ n == m ]

-- One chain of `ReIndex`: the index so far, and the next cell of it.
unfoldable pub reindex_chain :
    ℕ → List (Option ℕ) → Option ℕ → List (Option ℕ) × ℕ → List (Option ℕ) × ℕ
reindex_chain zero next from out = out
reindex_chain (suc fuel) next none out = out
reindex_chain (suc fuel) next (some n) (indexlist, index) =
    reindex_chain fuel next (get_or next n none) (set indexlist index (some n), index + 1)

reindex_buckets : ℕ → List (Option ℕ) → List (Option ℕ) → List (Option ℕ) × ℕ → List (Option ℕ) × ℕ
unfolding reindex_chain
reindex_buckets fuel next [] out = out
reindex_buckets fuel next (head ∷ heads) out =
    reindex_buckets fuel next heads (reindex_chain fuel next head out)

module _ {ℓ} {V : Type ℓ} where
  -- `FastHashBase::Reset`
  unfoldable pub reset : Table V → Table V
  reset t = record t {
    lookuptable = replicate t.tsize none;
    next = linked_from 0 t.fsize;
    freelist = first_node t.fsize;
    size = 0;
    index_valid = true;
    index_start = 0;
  }

  -- `FastHash()`, by way of `FastHashBase::Init`
  unfoldable pub fast_hash : ℕ → ℕ → Table V
  unfolding reset
  fast_hash fsize tsize = reset (record {
    fsize = fsize;
    tsize = tsize;
    nodes = replicate fsize none;
    next = replicate fsize none;
    freelist = none;
    lookuptable = replicate tsize none;
    indexlist = replicate fsize none;
    index_valid = true;
    index_start = 0;
    size = 0;
  })

  -- `_nodes[n].key == key`
  abbrev pub key_is : List (Option (ℕ × V)) → ℕ → ℕ → Bool
  key_is nodes n key = elim (get_or nodes n none) [ none ↦ false | some item ↦ item.0 == key ]

  -- The loop of `Find`: the node found and the one before it. A chain has at most `_fsize` nodes,
  -- so that much fuel and one more is never used up.
  unfoldable pub find_from :
      ℕ → List (Option (ℕ × V)) → List (Option ℕ) → ℕ → Option ℕ → Option ℕ → Option ℕ × Option ℕ
  find_from zero nodes next key probe prev = (none, prev)
  find_from (suc fuel) nodes next key none prev = (none, prev)
  find_from (suc fuel) nodes next key (some n) prev =
      let rest = find_from fuel nodes next key (get_or next n none) (some n) in
      if key_is nodes n key then (some n, prev) else rest

  -- `FastHashBase::Find`
  unfoldable pub find : ℕ → Table V → Option ℕ × Option ℕ
  unfolding find_from
  find key t =
      find_from (suc t.fsize) t.nodes t.next key (get_or t.lookuptable (key % t.tsize) none) none

  -- `FastHashBase::Lookup`
  unfoldable pub lookup : ℕ → Table V → Option V
  unfolding find
  lookup key t = elim (find key t).0 [
    | none ↦ none
    | some n ↦ elim (get_or t.nodes n none) [ none ↦ none | some item ↦ some item.1 ]
  ]

  -- `FastHashBase::Exists`
  unfoldable pub exists : ℕ → Table V → Bool
  unfolding find
  exists key t = elim (find key t).0 [ none ↦ false | some n ↦ true ]

  -- `FastHashBase::UpdateIndexWithAdd`
  unfoldable pub update_index_with_add : ℕ → Table V → Table V
  update_index_with_add n t =
      if t.index_valid && ltb t.size t.fsize
      then record t { indexlist = set t.indexlist ((t.size + t.index_start) % t.fsize) (some n) }
      else t

  -- `FastHashBase::Insert`: `false` is the return value -1, `true` is 1.
  unfoldable pub insert : ℕ → V → Table V → Bool × Table V
  unfolding update_index_with_add
  insert key value t =
      let hashindex = key % t.tsize in
      elim t.freelist [
        | none ↦ (false, t)
        | some n ↦
            let linked = record t {
              freelist = get_or t.next n none;
              nodes = set t.nodes n (some (key, value));
              next = set t.next n (get_or t.lookuptable hashindex none);
              lookuptable = set t.lookuptable hashindex (some n);
            } in
            let indexed = update_index_with_add n linked in
            (true, record indexed { size = t.size + 1 })
      ]

  -- `FastHashBase::UpdateIndexWithRemove`
  unfoldable pub update_index_with_remove : ℕ → Table V → Table V
  update_index_with_remove n t =
      let last = (t.index_start + (t.size - 1)) % t.fsize in
      if t.size == 0 || ltb 1 t.size && not t.index_valid
      then t
      else if t.size == 1
      then record t { index_valid = true; index_start = 0 }
      else if index_is t.indexlist t.index_start n
      then record t { index_start = (t.index_start + 1) % t.fsize }
      else if index_is t.indexlist last n
      then t
      else record t { index_valid = false }

  -- `FastHashBase::Remove`: `false` is the return value -1, `true` is 1.
  unfoldable pub remove : ℕ → Table V → Bool × Table V
  unfolding find update_index_with_remove
  remove key t =
      let hashindex = key % t.tsize in
      let (found, prev) = find key t in
      elim found [
        | none ↦ (false, t)
        | some n ↦
            let after = get_or t.next n none in
            let unlinked : Table V = elim prev [
              | none ↦ record t { lookuptable = set t.lookuptable hashindex after }
              | some p ↦ record t { next = set t.next p after }
            ] in
            let indexed = update_index_with_remove n unlinked in
            (
              true,
              record indexed {
                next = set indexed.next n t.freelist;
                freelist = some n;
                size = t.size - 1;
              },
            )
      ]

  -- `FastHashBase::ReIndex`
  unfoldable pub reindex : Table V → Table V
  unfolding reindex_buckets
  reindex t =
      let filled = reindex_buckets (suc t.fsize) t.next t.lookuptable (t.indexlist, 0) in
      if t.size == 0
      then t
      else record t { indexlist = filled.0; index_valid = true; index_start = 0 }

  -- the cell that `LookupByIndex` reads, where the index is valid
  unfoldable pub item_by_index : ℕ → Table V → Option (ℕ × V) × Table V
  item_by_index index t = (
    elim (get_or t.indexlist ((t.index_start + index) % t.fsize) none) [
      | none ↦ none
      | some n ↦ get_or t.nodes n none
    ],
    t,
  )

  -- `FastHashBase::LookupByIndex`, with the table that a `ReIndex` leaves.
  unfoldable pub lookup_by_index : ℕ → Table V → Option (ℕ × V) × Table V
  unfolding item_by_index
  lookup_by_index index t =
      let u = reindex t in
      if leb t.size index
      then (none, t)
      else if t.index_valid
      then item_by_index index t
      else if not u.index_valid
      then (none, u)
      else item_by_index index u

  -- `FastHashBase::LookupValueByIndex`
  unfoldable pub lookup_value_by_index : ℕ → Table V → Option V × Table V
  unfolding lookup_by_index
  lookup_value_by_index index t =
      let (item, u) = lookup_by_index index t in (elim item [ none ↦ none | some i ↦ some i.1 ], u)
