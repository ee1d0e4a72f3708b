-- ===== src/Reader/States.antt =====
-- The states of the parser, and the parts of `AddBytes` that lead from one to another.
use nat_tester.Base.{
  ℕ, ◌+◌, ◌≤◌, ◌<◌, ◌≡◌, ◌⊎◌, inl, inr, refl, sym, ap, subst, ◌∙◌, false, List, [], arith,
  Bool-cases, lt→ltb, le→ltb_false, dec_lt, ==→≡, leb→le, if◌then◌else◌, ltb, leb, ◌==◌,
}
use nat_tester.Hresult.{Run, succeeded}
use nat_tester.StunTypes.{Attribute, max_message_size, header_size}
use nat_tester.Stream.{get_size}
use nat_tester.Stream.Laws.{IsValid}
use nat_tester.FastHash.Refine.{Represents}
use nat_tester.Reader.{
  Reader, ParseState, header_not_read, header_validated, body_validated, parse_error, after_header,
  read_header, read_body, try_header, try_body, reject_excess, max_num_attributes,
}
use nat_tester.Reader.Safety.{Sound, read_body-Sound}
use nat_tester.Reader.Header.{buffer_size, KeptBy, read_header-KeptBy}

-- A reader whose body is still to come: a valid stream that may grow, and no attributes.
pub record Open (r : Reader) : Type 0 where
  pub valid : IsValid r.stream
  pub growing : r.stream.no_grow ≡ false
  pub capacity : r.attributes.fsize ≡ max_num_attributes
  pub table : Represents r.attributes []
  pub counted : r.count_attributes ≡ 0

-- What each state promises of the reader.
abbrev pub InState : ParseState → Reader → Type 0
InState header_not_read r = Open r
InState header_validated r = Open r × (r.msg_length ≤ max_message_size)
InState body_validated r = (pairs : List (ℕ × Attribute)) × Sound (get_size r.stream) r pairs
InState parse_error r = Unit

-- The promise of the state that the reader is in.
abbrev pub IsReading : Reader → Type 0
IsReading r = InState r.state r

-- A reader that `ReadHeader` has passed over is still open.
pub Open-KeptBy : (r : Reader) (out : Run Reader) → Open r → KeptBy r out → Open out.1
Open-KeptBy r out o k =
    let same = k.moved.buffer in
    record {
      valid = record {
        pos_in = k.moved.inside;
        fits = ground (arith, o.valid.fits);
        room = ground (arith, o.valid.room);
        small = ground (arith, o.valid.small);
      };
      growing = k.moved.no_grow ∙ o.growing;
      capacity = ap (λ t. t.fsize) k.attributes ∙ o.capacity;
      table = subst (λ t. Represents t []) (sym k.attributes) o.table;
      counted = k.counted ∙ o.counted;
    }

-- What the second part of `AddBytes` starts from: a body that was read before may have more
-- bytes behind it now, and will be rejected.
abbrev pub Pending : ParseState → Reader → Type 0
Pending header_not_read r = Open r
Pending header_validated r = Open r × (r.msg_length ≤ max_message_size)
Pending body_validated r =
    (r.msg_length + header_size < get_size r.stream)
    ⊎ ((pairs : List (ℕ × Attribute)) × Sound (get_size r.stream) r pairs)
Pending parse_error r = Unit

-- a message of a header alone is sound
pub Sound-nothing :
    (r : Reader)
    → Open r
    → r.msg_length + header_size ≡ get_size r.stream
    → r.msg_length ≤ max_message_size
    → Sound (get_size r.stream) r []
Sound-nothing r o e short = record {
  valid = o.valid;
  growing = o.growing;
  whole = refl;
  announced = e;
  short = omega arith;
  capacity = o.capacity;
  table = o.table;
  bounds = tt;
  counted = o.counted;
}

-- a reader in its state
abbrev pub Settled : Reader → Type 0
Settled r = Pending r.state r

-- the reader that `ReadHeader` leaves, with its new state
unfoldable pub with_header : Reader → Reader
with_header r = record (read_header r).1 {
  state = after_header (read_header r).0 (read_header r).1.msg_length;
}

pub Open-state : (s : ParseState) (r : Reader) → Open r → Open (record r { state = s })
Open-state s r o = record {
  valid = o.valid;
  growing = o.growing;
  capacity = o.capacity;
  table = o.table;
  counted = o.counted;
}

pub Sound-state :
    (s : ParseState) (total : ℕ) (r : Reader) (pairs : List (ℕ × Attribute))
    → Sound total r pairs
    → Sound total (record r { state = s }) pairs
Sound-state s total r pairs o = record {
  valid = o.valid;
  growing = o.growing;
  whole = o.whole;
  announced = o.announced;
  short = o.short;
  capacity = o.capacity;
  table = o.table;
  bounds = o.bounds;
  counted = o.counted;
}

-- a message that is a header alone, or has bytes behind it
pub header_alone :
    (r : Reader)
    → Open r
    → r.msg_length ≡ 0
    → header_size ≤ get_size r.stream
    → Pending body_validated r
header_alone r o none_follow enough = elim (dec_lt header_size (get_size r.stream)) [
  | yes beyond ↦ inl (omega arith)
  | no exact ↦ inr ([], Sound-nothing r o (omega arith) (omega arith))
]

pub with_header-Settled :
    (r : Reader) → Open r → header_size ≤ get_size r.stream → Settled (with_header r)
unfolding with_header
with_header-Settled r o enough =
    let k = read_header-KeptBy r o.valid in
    let r' = (read_header r).1 in
    let kept = Open-KeptBy r (read_header r) o k in
    elim (Bool-cases (succeeded (read_header r).0)) [
      | inr failed ↦ rw failed tt
      | inl ok ↦ elim (Bool-cases (r'.msg_length == 0)) [
        | inl alone ↦
            rw (ok, alone)
              (header_alone (record r' { state = body_validated })
                (Open-state body_validated r' kept) (==→≡ r'.msg_length 0 alone)
                (subst (λ b. header_size ≤ buffer_size b) (sym k.moved.buffer) enough))
        | inr more ↦ rw (ok, more) (Open-state header_validated r' kept, k.short ok)
      ]
    ]

pub try_header-Settled : (r : Reader) → Settled r → Settled (try_header r)
unfolding try_header with_header
try_header-Settled r p = go r.state refl
  where
    go : (s : ParseState) → r.state ≡ s → Settled (try_header r)
    go header_not_read e = elim (Bool-cases (leb header_size (get_size r.stream))) [
      | inl enough ↦
          let same : try_header r ≡ with_header r = rw (e, enough) refl in
          subst Settled (sym same) (
            with_header-Settled r (subst (λ s. Pending s r) e p)
              (leb→le header_size (get_size r.stream) enough))
      | inr short ↦ let same : try_header r ≡ r = rw (e, short) refl in subst Settled (sym same) p
    ]
    go header_validated e = let same : try_header r ≡ r = rw e refl in subst Settled (sym same) p
    go body_validated e = let same : try_header r ≡ r = rw e refl in subst Settled (sym same) p
    go parse_error e = let same : try_header r ≡ r = rw e refl in subst Settled (sym same) p

-- the reader that `ReadBody` leaves, with its new state
unfoldable pub with_body : Reader → Reader
with_body r = record (read_body r).1 {
  state = if succeeded (read_body r).0 then body_validated else parse_error;
}

pub with_body-Settled :
    (r : Reader)
    → Open r
    → r.msg_length ≤ max_message_size
    → r.msg_length + header_size ≡ get_size r.stream
    → Settled (with_body r)
unfolding with_body
with_body-Settled r o short whole = elim (Bool-cases (succeeded (read_body r).0)) [
  | inr failed ↦ rw failed tt
  | inl ok ↦
      let (pairs, sound, _) =
        read_body-Sound (get_size r.stream) r (Sound-nothing r o whole short) (omega arith) ok in
      let r' = (read_body r).1 in
      rw ok (
        inr (
          pairs,
          subst (λ n. Sound n (record r' { state = body_validated }) pairs) (sym sound.whole)
              (Sound-state body_validated (get_size r.stream) r' pairs sound),
        ))
]

pub try_body-Settled : (r : Reader) → Settled r → Settled (try_body r)
unfolding try_body with_body
try_body-Settled r p = go r.state refl
  where
    go : (s : ParseState) → r.state ≡ s → Settled (try_body r)
    go header_not_read e = let same : try_body r ≡ r = rw e refl in subst Settled (sym same) p
    go header_validated e =
        let (o, bounded) = subst (λ s. Pending s r) e p in
        elim (Bool-cases (ltb (get_size r.stream) (r.msg_length + header_size))) [
          | inl short ↦ let same : try_body r ≡ r = rw (e, short) refl in subst Settled (sym same) p
          | inr enough ↦ elim (Bool-cases (get_size r.stream == r.msg_length + header_size)) [
            | inl whole ↦
                let same : try_body r ≡ with_body r = rw (e, enough, whole) refl in
                subst Settled (sym same)
                  (with_body-Settled r o bounded (sym (==→≡ (get_size r.stream) _ whole)))
            | inr excess ↦
                let same : try_body r ≡ record r { state = parse_error } =
                  rw (e, enough, excess) refl in
                subst Settled (sym same) tt
          ]
        ]
    go body_validated e = let same : try_body r ≡ r = rw e refl in subst Settled (sym same) p
    go parse_error e = let same : try_body r ≡ r = rw e refl in subst Settled (sym same) p

pub reject_excess-InState :
    (r : Reader) → Settled r → InState (reject_excess r).state (reject_excess r)
unfolding reject_excess
reject_excess-InState r p = go r.state refl
  where
    go : (s : ParseState) → r.state ≡ s → InState (reject_excess r).state (reject_excess r)
    go header_not_read e =
        let same : reject_excess r ≡ r = rw e refl in
        subst (λ x. InState x.state x) (sym same)
          (subst (λ s. InState s r) (sym e) (subst (λ s. Pending s r) e p))
    go header_validated e =
        let same : reject_excess r ≡ r = rw e refl in
        subst (λ x. InState x.state x) (sym same)
          (subst (λ s. InState s r) (sym e) (subst (λ s. Pending s r) e p))
    go body_validated e = elim (subst (λ s. Pending s r) e p) [
      | inl beyond ↦
          let same : reject_excess r ≡ record r { state = parse_error } =
            rw (e, lt→ltb (r.msg_length + header_size) (get_size r.stream) beyond) refl in
          subst (λ x. InState x.state x) (sym same) tt
      | inr (pairs, sound) ↦
          let same : reject_excess r ≡ r =
            rw
              (
                e,
                le→ltb_false (r.msg_length + header_size) (get_size r.stream)
                    (omega (arith, sound.announced)),
              )
              refl in
          subst (λ x. InState x.state x) (sym same)
            (subst (λ s. InState s r) (sym e) (pairs, sound))
    ]
    go parse_error e =
        let same : reject_excess r ≡ r = rw e refl in
        subst (λ x. InState x.state x) (sym same) (subst (λ s. InState s r) (sym e) tt)
