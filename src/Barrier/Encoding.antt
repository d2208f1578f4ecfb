-- ===== src/Barrier/Encoding.antt =====
-- src/barrier.rs: the word that holds the round and the arrivals, read apart.
use xutex.Prelude.{
  ℕ, ◌+◌, ◌^◌, ◌<◌, ◌≡◌, true, false, inl, inr, Bool-cases, ◌==◌, leb, if◌then◌else◌, arith,
}
use xutex.Barrier.{generation, arrived, next_word, arrive_outcome, leader, wait}
use xutex.Barrier.Rounds.{word_of}
use xutex.Barrier.Steps.{Rounds, next_state, same_rounds}

-- The word of a round and its arrivals.
abbrev pub encode : Rounds → ℕ
encode r = word_of r.round r.arrivals

abbrev pub decode : ℕ → Rounds
decode w = record { round = generation w; arrivals = arrived w }

-- For arrivals that fit the low half: the word, read apart into its halves, gives back the round and
-- the arrivals; and the halves of any word, put together, give back the word.
pub decode-encode :
    (r : Rounds) (w : ℕ) → r.arrivals < 2 ^ 32 → (decode (encode r) ≡ r) × (encode (decode w) ≡ w)
decode-encode r w small = (ground arith, ground arith)

generation-encode : (r : Rounds) → r.arrivals < 2 ^ 32 → generation (encode r) ≡ r.round
generation-encode r small = ground arith

arrived-encode : (r : Rounds) → r.arrivals < 2 ^ 32 → arrived (encode r) ≡ r.arrivals
arrived-encode r small = ground arith

last_arrives :
    (size : ℕ) (cur : Rounds)
    → cur.arrivals < 2 ^ 32
    → leb size (cur.arrivals + 1) ≡ true
    → (encode (next_state size cur) ≡ next_word size (encode cur))
      × (arrive_outcome (encode cur) (next_word size (encode cur)) ≡ leader cur.round)
unfolding next_word arrive_outcome
last_arrives size cur small last =
    rw (last, arrived-encode cur small, generation-encode cur small, last)
      (ground arith, ground arith)

early_arrives :
    (size : ℕ) (cur : Rounds)
    → size < 2 ^ 32
    → cur.arrivals < 2 ^ 32
    → leb size (cur.arrivals + 1) ≡ false
    → (encode (next_state size cur) ≡ next_word size (encode cur))
      × (arrive_outcome (encode cur) (next_word size (encode cur)) ≡ wait cur.round)
unfolding next_word arrive_outcome
early_arrives size cur small small' early =
    rw (early, arrived-encode cur small', generation-encode cur small', early)
      (ground arith, ground arith)

same_encode :
    (a b : Rounds)
    → a.arrivals < 2 ^ 32
    → b.arrivals < 2 ^ 32
    → same_rounds a b ≡ (encode a == encode b)
same_encode a b small small' = ground arith

-- For a size and arrivals that fit the low half: an arrival changes the round and the arrivals the way
-- it changes the word, whose low half is zero afterwards, so that the caller leads, exactly if the
-- round is complete; comparing both halves is comparing words; the word, read apart, gives back the
-- round and the arrivals; and the halves of any word, put together, give back the word.
pub next_state-next_word :
    (size : ℕ) (cur other : Rounds) (word : ℕ)
    → 0 < size
    → size < 2 ^ 32
    → cur.arrivals < size
    → other.arrivals < size
    → (encode (next_state size cur) ≡ next_word size (encode cur))
      × (arrive_outcome (encode cur) (next_word size (encode cur))
          ≡ (if leb size (cur.arrivals + 1) then leader cur.round else wait cur.round))
      × (same_rounds cur other ≡ (encode cur == encode other))
      × (decode (encode cur) ≡ cur)
      × (encode (decode word) ≡ word)
next_state-next_word size cur other word some_caller small few few' =
    let fits : cur.arrivals < 2 ^ 32 = omega arith in
    let back = decode-encode cur word fits in
    let same = same_encode cur other fits (omega arith) in
    elim (Bool-cases (leb size (cur.arrivals + 1))) [
      | inl last ↦
          let r = last_arrives size cur fits last in (r.0, rw last r.1, same, back.0, back.1)
      | inr early ↦
          let r = early_arrives size cur small fits early in
          (r.0, rw early r.1, same, back.0, back.1)
    ]
