-- ===== src/FastHash/Laws.antt =====
-- A table that only `Insert` has changed, against the list of the pairs inserted, newest first.
use nat_tester.Base.{
  ℕ, zero, suc, ◌+◌, ◌%◌, ◌≤◌, ◌<◌, ◌≡◌, ◌≢◌, refl, sym, ◌∙◌, true, false, List, [], ◌∷◌, Option,
  none, some, length, get_or, set, ◌==◌, if◌then◌else◌, arith, length-set, lt→ltb, ℕ_discrete,
  ==_refl, ne→==_false,
}
use nat_tester.FastHash.{Table, find_from, find, lookup, insert, update_index_with_add}
use nat_tester.FastHash.Chains.{
  All, All-both, Distinct, Chain, Chain-set, get_or-set_self, get_or-set_ne,
}

-- one insertion: the node used, the key and the value
abbrev pub Entry {ℓ} : Type ℓ → Type ℓ
Entry V = ℕ × ℕ × V

module _ {V : Type 0} where
  -- the nodes of one column of the table, newest first
  abbrev pub bucket : ℕ → ℕ → List (Entry V) → List ℕ
  bucket tsize b [] = []
  bucket tsize b (e ∷ log) =
      let rest = bucket tsize b log in if e.1 % tsize == b then e.0 ∷ rest else rest

  -- the value last inserted under a key
  abbrev pub first : ℕ → List (Entry V) → Option V
  first key [] = none
  first key (e ∷ log) = if e.1 == key then some e.2 else first key log

  abbrev pub IsStored : List (Option (ℕ × V)) → List (Entry V) → Type 0
  IsStored nodes log = All (λ e. get_or nodes e.0 none ≡ some (e.1, e.2)) log

  abbrev value_of : List (Option (ℕ × V)) → Option ℕ → Option V
  value_of nodes none = none
  value_of nodes (some n) = elim (get_or nodes n none) [ none ↦ none | some item ↦ some item.1 ]

  find_from-first :
      (nodes : List (Option (ℕ × V))) (next : List (Option ℕ)) (tsize key : ℕ)
      (log : List (Entry V)) (fuel : ℕ) (head prev : Option ℕ)
      → length log < fuel
      → IsStored nodes log
      → Chain next head (bucket tsize (key % tsize) log)
      → value_of nodes (find_from fuel nodes next key head prev).0 ≡ first key log
  unfolding find_from
  find_from-first nodes next tsize key [] zero head prev h st c = elim h [ ]
  find_from-first nodes next tsize key [] (suc fuel) head prev h st c = rw c
  find_from-first nodes next tsize key (e ∷ log) zero head prev h st c = elim h [ ]
  find_from-first nodes next tsize key (e ∷ log) (suc fuel) head prev h st c = ground (
    arith,
    find_from-first nodes next tsize key log fuel (get_or next e.0 none) (some e.0),
    find_from-first nodes next tsize key log (suc fuel) head prev,
  )

  -- The cells of the index, oldest first, name the nodes in the order of insertion.
  abbrev pub IsIndexed : List (Option ℕ) → List (Entry V) → Type 0
  IsIndexed indexlist [] = Unit
  IsIndexed indexlist (e ∷ log) =
      (get_or indexlist (length log) none ≡ some e.0) × IsIndexed indexlist log

  -- `t` came from an empty table by the insertions `log`, newest first, and `free` is its free
  -- list.
  pub record Holds (t : Table V) (log : List (Entry V)) (free : List ℕ) : Type 0 where
    pub columns : 0 < t.tsize
    pub nodes_size : length t.nodes ≡ t.fsize
    pub next_size : length t.next ≡ t.fsize
    pub lookup_size : length t.lookuptable ≡ t.tsize
    pub index_size : length t.indexlist ≡ t.fsize
    pub size : t.size ≡ length log
    pub count : length free + length log ≡ t.fsize
    pub stored : IsStored t.nodes log
    pub linked :
        (b : ℕ) → b < t.tsize → Chain t.next (get_or t.lookuptable b none) (bucket t.tsize b log)
    pub free_linked : Chain t.next t.freelist free
    pub distinct : Distinct free
    pub apart : All (λ x. All (λ e. x ≢ e.0) log) free
    pub valid : t.index_valid ≡ true
    pub start : t.index_start ≡ 0
    pub indexed : IsIndexed t.indexlist log

  -- Looking a key up gives the value last inserted under it, and NULL if there is none.
  pub lookup-first :
      (t : Table V) (log : List (Entry V)) (free : List ℕ) (key : ℕ)
      → Holds t log free
      → lookup key t ≡ first key log
  unfolding lookup find
  lookup-first t log free key h =
      value_eq (find key t).0
      ∙ find_from-first t.nodes t.next t.tsize key log (suc t.fsize) _ none (omega (arith, h.count))
          h.stored (h.linked (key % t.tsize) (omega (arith, h.columns)))
    where
      value_eq :
          (o : Option ℕ)
          → (elim o as (λ _. Option V) [
            | none ↦ none
            | some n ↦ elim (get_or t.nodes n none) [ none ↦ none | some item ↦ some item.1 ]
          ])
            ≡ value_of t.nodes o
      value_eq none = refl
      value_eq (some n) = refl

  IsStored-set :
      (nodes : List (Option (ℕ × V))) (n : ℕ) (item : ℕ × V) (log : List (Entry V))
      → All (λ e. n ≢ e.0) log
      → IsStored nodes log
      → IsStored (set nodes n (some item)) log
  IsStored-set nodes n item [] apart st = tt
  IsStored-set nodes n item (e ∷ log) apart st = (
    get_or-set_ne nodes n e.0 (some item) none apart.0 ∙ st.0,
    IsStored-set nodes n item log apart.1 st.1,
  )

  IsIndexed-set :
      (indexlist : List (Option ℕ)) (i n : ℕ) (log : List (Entry V))
      → length log ≤ i
      → IsIndexed indexlist log
      → IsIndexed (set indexlist i (some n)) log
  IsIndexed-set indexlist i n [] h ix = tt
  IsIndexed-set indexlist i n (e ∷ log) h ix = (
    get_or-set_ne indexlist i (length log) (some n) none (omega arith) ∙ ix.0,
    IsIndexed-set indexlist i n log (omega arith) ix.1,
  )

  bucket_apart :
      (tsize b n : ℕ) (log : List (Entry V))
      → All (λ e. n ≢ e.0) log
      → All (λ m. n ≢ m) (bucket tsize b log)
  bucket_apart tsize b n [] h = tt
  bucket_apart tsize b n (e ∷ log) h = ground (arith, bucket_apart tsize b n log h.1)

  -- the table after an insertion into node `n`
  abbrev inserted : Table V → ℕ → ℕ → V → Table V
  inserted t n key value = record t {
    freelist = get_or t.next n none;
    nodes = set t.nodes n (some (key, value));
    next = set t.next n (get_or t.lookuptable (key % t.tsize) none);
    lookuptable = set t.lookuptable (key % t.tsize) (some n);
    indexlist = set t.indexlist t.size (some n);
    size = t.size + 1;
  }

  insert-inserted :
      (t : Table V) (n key : ℕ) (value : V)
      → t.freelist ≡ some n
      → t.index_valid ≡ true
      → t.index_start ≡ 0
      → t.size < t.fsize
      → insert key value t ≡ (true, inserted t n key value)
  unfolding insert update_index_with_add
  insert-inserted t n key value e iv is room =
      let cell : (t.size + t.index_start) % t.fsize ≡ t.size = grind arith in
      rw (e, iv, lt→ltb _ _ room, cell)

  linked_inserted :
      (t : Table V) (log : List (Entry V)) (n : ℕ) (free : List ℕ) (key : ℕ) (value : V)
      → Holds t log (n ∷ free)
      → (b : ℕ) → b < t.tsize
      → Chain
          (inserted t n key value).next
          (get_or (inserted t n key value).lookuptable b none)
          (bucket t.tsize b ((n, key, value) ∷ log))
  linked_inserted t log n free key value h b lt = elim (ℕ_discrete (key % t.tsize) b) [
    | yes e ↦
        let keep =
          Chain-set t.next n (get_or t.lookuptable b none) _ _
            (bucket_apart t.tsize b n log h.apart.0) (h.linked b lt) in
        rw (e, ==_refl b)
          (
            get_or-set_self t.lookuptable b (some n) none (omega (arith, h.lookup_size)),
            omega (arith, h.free_linked.1, length-set t.next n (get_or t.lookuptable b none)),
            rw (get_or-set_self t.next n (get_or t.lookuptable b none) none h.free_linked.1) keep,
          )
    | no ne ↦
        let keep =
          Chain-set t.next n (get_or t.lookuptable (key % t.tsize) none) _ _
            (bucket_apart t.tsize b n log h.apart.0) (h.linked b lt) in
        rw (ne→==_false _ _ ne, get_or-set_ne t.lookuptable _ b (some n) none ne) keep
  ]

  -- `Insert` into a table that is not full: the pair becomes the newest one.
  pub insert-Holds :
      (t : Table V) (log : List (Entry V)) (n : ℕ) (free : List ℕ) (key : ℕ) (value : V)
      → Holds t log (n ∷ free)
      → ((insert key value t).0 ≡ true) × Holds (insert key value t).1 ((n, key, value) ∷ log) free
  insert-Holds t log n free key value h =
      rw
        (insert-inserted t n key value h.free_linked.0 h.valid h.start
          (omega (arith, h.count, h.size)))
        (
          refl,
          record {
            columns = h.columns;
            nodes_size = length-set _ _ _ ∙ h.nodes_size;
            next_size = length-set _ _ _ ∙ h.next_size;
            lookup_size = length-set _ _ _ ∙ h.lookup_size;
            index_size = length-set _ _ _ ∙ h.index_size;
            size = omega (arith, h.size);
            count = omega (arith, h.count);
            stored = (
              get_or-set_self t.nodes n _ none
                  (omega (arith, h.free_linked, h.next_size, h.nodes_size)),
              IsStored-set t.nodes n (key, value) log h.apart.0 h.stored,
            );
            linked = linked_inserted t log n free key value h;
            free_linked = Chain-set t.next n _ _ free h.distinct.0 h.free_linked.2;
            distinct = h.distinct.1;
            apart = All-both (λ x p q. ((λ e. p (sym e)), q)) free h.distinct.0 h.apart.1;
            valid = h.valid;
            start = h.start;
            indexed = (
              rw (← h.size) (
                  get_or-set_self t.indexlist t.size (some n) none
                    (omega (arith, h.index_size, h.count, h.size))),
              IsIndexed-set t.indexlist t.size n log (omega (arith, h.size)) h.indexed,
            );
          },
        )

  -- `Insert` fails exactly on a full table, and then changes nothing.
  pub insert_full :
      (t : Table V) (log : List (Entry V)) (key : ℕ) (value : V)
      → Holds t log []
      → insert key value t ≡ (false, t)
  unfolding insert
  insert_full t log key value h = rw h.free_linked

  -- `Insert` keeps the number of nodes.
  pub fsize-insert : (key : ℕ) (value : V) (t : Table V) → (insert key value t).1.fsize ≡ t.fsize
  unfolding insert update_index_with_add
  fsize-insert key value t = ground arith
