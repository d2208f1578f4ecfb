-- ===== src/Barrier.antt =====
-- src/barrier.rs: the word of a barrier, that counts the arrivals of a round in its low half and
-- the rounds in its high half, for words of 64 bits.
pub mod Rounds
pub mod Steps
pub mod Invariant
pub mod Moves
pub mod Kept
pub mod PopRound
pub mod Release
pub mod Complete
pub mod Reach
pub mod Safety
pub mod Contract
pub mod Encoding
pub mod Finish
mod Tests
use xutex.Prelude.{
  ℕ, zero, suc, false, ◌+◌, ◌*◌, ◌/◌, ◌%◌, ◌^◌, Bool, List, [], ◌∷◌, ◌==◌, ◌&&◌, leb, not,
  if◌then◌else◌,
}

-- `generation`
abbrev pub generation : ℕ → ℕ
generation state = state / 2 ^ 32

-- `state & ARRIVED_MASK`
abbrev pub arrived : ℕ → ℕ
arrived state = state % 2 ^ 32

-- The size that `new` keeps.
abbrev pub barrier_size : ℕ → ℕ
barrier_size n = if n == 0 then 1 else n

pub data ArriveOutcome : Type 0 where
  leader wait : (round : ℕ) → ArriveOutcome

-- The word after an arrival, from `cur`.
unfoldable pub next_word : (size cur : ℕ) → ℕ
next_word size cur =
    if leb size (arrived cur + 1) then ((generation cur + 1) % 2 ^ 32) * 2 ^ 32 else cur + 1

unfoldable pub arrive_outcome : (cur next : ℕ) → ArriveOutcome
arrive_outcome cur next =
    if arrived next == 0 then leader (generation cur) else wait (generation cur)

-- What a round of the loop of `arrive` ends with: an outcome and the word written, or the word to
-- try again from.
pub data Exchange : Type 0 where
  won : ArriveOutcome → (word : ℕ) → Exchange
  lost : (actual : ℕ) → Exchange

unfoldable pub arrive_round : (spurious : Bool) → (size cur word : ℕ) → Exchange
arrive_round spurious size cur word =
    let next = next_word size cur in
    if not spurious && word == cur then won (arrive_outcome cur next) next else lost word

-- `k` arrivals one after the other: their outcomes, and the last word.
unfoldable pub arrivals : (size k word : ℕ) → List ArriveOutcome × ℕ
arrivals size zero word = ([], word)
arrivals size (suc k) word = elim (arrive_round false size word word) [
  | won o next ↦ let rest = arrivals size k next in (o ∷ rest.0, rest.1)
  | lost actual ↦ ([], actual)
]
